-- ===== src/Web/Client.antt =====
-- `HttpWebBackend.__init__`, its `close` and `build_web_backend` of src/web.py. The HTTP client is a
-- parameter: how one is made, and how it is closed.
use claudecodenodus.Base.{Text, lit, Bool, true, false, Option, none, some, if◌then◌else◌}
use claudecodenodus.Exec.Blocks.{Block, pure, ◌>>=◌}
use claudecodenodus.Web.Backend.{Keys}

module _ (C : Type 0) where
  pub record HttpWebBackend : Type 0 where
    pub owns_client : Bool
    pub client : C
    pub keys : Keys

module _ (environ : Text → Option Text) where
  -- `key if key is not None else os.environ.get(name)`
  unfoldable pub key_or : Option Text → Text → Option Text
  key_or none name = environ name
  key_or (some key) name = some key

  unfoldable pub keys_or : Option Text → Option Text → Keys
  keys_or tavily_key brave_key = record {
    tavily = key_or tavily_key (lit "TAVILY_API_KEY");
    brave = key_or brave_key (lit "BRAVE_API_KEY");
  }

module _ {S C : Type 0} (new_client : Block S C) (environ : Text → Option Text) where
  -- `__init__`
  unfoldable pub web_backend : Option C → Option Text → Option Text → Block S (HttpWebBackend C)
  web_backend none tavily_key brave_key = do
    client ← new_client
    pure (record {
      owns_client = true;
      client = client;
      keys = keys_or environ tavily_key brave_key;
    })
  web_backend (some client) tavily_key brave_key =
      pure (record {
        owns_client = false;
        client = client;
        keys = keys_or environ tavily_key brave_key;
      })

  unfoldable pub build_web_backend : Block S (HttpWebBackend C)
  build_web_backend = web_backend none none none

module _ {S C : Type 0} (close_client : C → Block S (Unit {0})) where
  -- `close`
  unfoldable pub close_web_backend : HttpWebBackend C → Block S (Unit {0})
  close_web_backend backend = if backend.owns_client then close_client backend.client else pure tt
