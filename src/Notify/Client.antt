-- ===== src/Notify/Client.antt =====
-- `HttpNotifier.__init__`, its `close` and `build_notifier` of src/notify.py. The HTTP client is a
-- parameter: how one is made, and how it is closed.
use claudecodenodus.Base.{Bool, true, false, Option, none, some, if◌then◌else◌}
use claudecodenodus.Exec.Blocks.{Block, pure, ◌>>=◌}

module _ (C : Type 0) where
  pub record HttpNotifier : Type 0 where
    pub owns_client : Bool
    pub client : C

module _ {S C : Type 0} (new_client : Block S C) where
  -- `__init__`
  unfoldable pub http_notifier : Option C → Block S (HttpNotifier C)
  http_notifier none = do client ← new_client; pure (record { owns_client = true; client = client })
  http_notifier (some client) = pure (record { owns_client = false; client = client })

  unfoldable pub build_notifier : Block S (HttpNotifier C)
  build_notifier = http_notifier none

module _ {S C : Type 0} (close_client : C → Block S (Unit {0})) where
  -- `close`
  unfoldable pub close_notifier : HttpNotifier C → Block S (Unit {0})
  close_notifier notifier = if notifier.owns_client then close_client notifier.client else pure tt
