-- ===== src/Scheduler/Headers.antt =====
-- The headers and cookies of a request that the scheduler gives out
-- (crawler/crawling/distributed_scheduler.py: the end of next_request, request_from_feed and
-- parse_cookie). What `re.findall` finds in a text is an argument.
use scrapy_cluster.Prelude.{
  String, ◌≡◌, refl, ap, ◌∙◌, Option, none, some, List, [], ◌∷◌, Dict, insert, lookup, str_eq,
  lookup-insert, if◌then◌else◌, Bool,
}
use scrapy_cluster.Scheduler.Requests.{Feed, request_from_feed}
use scrapy_cluster.Crawl.{Request}

-- the cookie of the meta data: a dict, or a text; another kind of value is passed over
pub data Cookie : Type 0 where
  dict : Dict String → Cookie
  text : String → Cookie
  strange : Cookie

-- a request with what Scrapy sends along
pub record Sent : Type 0 where
  pub request : Request
  pub user_agent : Option String
  pub cookies : Dict String

module _ (findall : String → List (String × String)) where
  abbrev pub insert_all : List (String × String) → Dict String → Dict String
  insert_all [] my_dict = my_dict
  insert_all ((name, value) ∷ results) my_dict = insert_all results (insert name value my_dict)

  -- parse_cookie
  unfoldable pub parse_cookie : String → Dict String
  parse_cookie string = insert_all (findall string) []

  -- the test of the cookie's kind
  unfoldable pub with_cookie : Option Cookie → Sent → Sent
  with_cookie none req = req
  with_cookie (some (dict cookies)) req = record req { cookies = cookies }
  with_cookie (some (text string)) req = record req { cookies = parse_cookie string }
  with_cookie (some strange) req = req

  -- request_from_feed with its cookies
  unfoldable pub feed_with_cookie : (String → Bool) → Option Cookie → Feed → Sent
  feed_with_cookie is_absolute cookie feed =
      with_cookie cookie
        (record { request = request_from_feed is_absolute feed; user_agent = none; cookies = [] })

  -- the extra check at the end of next_request
  unfoldable pub with_extras : Option String → Option Cookie → Sent → Sent
  with_extras useragent cookie req =
      with_cookie cookie
        (elim useragent [ none ↦ req | some agent ↦ record req { user_agent = some agent } ])

  -- the last value of a name in the text, or else what was there
  abbrev last_value : String → List (String × String) → Option String → Option String
  last_value j [] found = found
  last_value j ((name, value) ∷ results) found =
      last_value j results (if str_eq name j then some value else found)

  lookup-insert_all :
      (j : String) (results : List (String × String)) (my_dict : Dict String)
      → lookup j (insert_all results my_dict) ≡ last_value j results (lookup j my_dict)
  lookup-insert_all j [] my_dict = refl
  lookup-insert_all j ((name, value) ∷ results) my_dict =
      lookup-insert_all j results (insert name value my_dict)
      ∙ ap (last_value j results) (lookup-insert name j value my_dict)

  -- Checking the cookie a second time changes nothing: a feed's request leaves next_request with the
  -- cookies that request_from_feed gave it, and with the user agent of the feed.
  pub with_extras-feed :
      (is_absolute : String → Bool) (useragent : Option String) (cookie : Option Cookie)
      (feed : Feed)
      → with_extras useragent cookie (feed_with_cookie is_absolute cookie feed)
        ≡ record (feed_with_cookie is_absolute cookie feed) { user_agent = useragent }
  unfolding with_extras feed_with_cookie with_cookie
  with_extras-feed is_absolute none none feed = refl
  with_extras-feed is_absolute none (some (dict cookies)) feed = refl
  with_extras-feed is_absolute none (some (text string)) feed = refl
  with_extras-feed is_absolute none (some strange) feed = refl
  with_extras-feed is_absolute (some agent) none feed = refl
  with_extras-feed is_absolute (some agent) (some (dict cookies)) feed = refl
  with_extras-feed is_absolute (some agent) (some (text string)) feed = refl
  with_extras-feed is_absolute (some agent) (some strange) feed = refl

  -- Each name in a cookie text has its last value.
  pub lookup-parse_cookie :
      (j string : String) → lookup j (parse_cookie string) ≡ last_value j (findall string) none
  unfolding parse_cookie
  lookup-parse_cookie j string = lookup-insert_all j (findall string) []
