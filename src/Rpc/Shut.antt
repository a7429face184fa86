-- ===== src/Rpc/Shut.antt =====
-- The display level that is not served.
use apipro.Base.{◌≡◌, false, Result, err, ◌⊎◌}
use apipro.Cache.{Node}
use apipro.Degrade.{Manager, level_display, can_serve_level}
use apipro.Redis.{Redis}
use apipro.Rpc.{code_business_error, code_rate_limited}
use apipro.Rpc.Pages.{Page}
use apipro.Rpc.Show.{Refused, Shelf}
use apipro.Rpc.Wire.{Message, show_closed}

module _ (r : Redis) {Json : Type 0} (shelf : Shelf r Json) (dgr : Manager)
    (shut : can_serve_level dgr level_display ≡ false) (n : Node r.Db) where
  -- Refused for the level, or before it for the request, with nothing touched.
  abbrev pub Turned : Node r.Db × Result Refused Page → Type 0
  Turned p =
      (p ≡ (n, err (code_rate_limited, show_closed)))
      ⊎ ((m : Message) × (p ≡ (n, err (code_business_error, m))))
