-- ===== src/Statistics.antt =====
-- The statistics that the monitors keep and report: the collectors of redis-monitor/redis_monitor.py
-- and kafka-monitor/kafka_monitor.py, and the reports of redis-monitor/plugins/stats_monitor.py.
pub mod Tables
pub mod Queues
pub mod Spiders
pub mod Machines
pub mod Groups
pub mod Reports
pub mod Keys
pub mod Collected
mod Tests
