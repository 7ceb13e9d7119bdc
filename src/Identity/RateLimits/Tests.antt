-- ===== src/Identity/RateLimits/Tests.antt =====
-- Three charges of a key with a limit of two, and one of another key.
use reading_wiki.Prelude.{◌≤◌, ◌<◌, ◌≡◌, refl, arith, some, List, [], ◌∷◌, All}
use reading_wiki.Identity.RateLimits.{Buckets, RateLimit, Call, charge, sweep, grants}
use reading_wiki.Identity.RateLimits.Windows.{IsInWindow, grants-limit}

abbrev rate : RateLimit
rate = record { limit = 2; window_seconds = 60 }

abbrev table : Buckets
table k = some (record { count = 9; reset_at = 90 })

abbrev calls : List Call
calls =
    charge 100 "login" rate
    ∷ (charge 110 "login" rate
        ∷ (charge 111 "other" rate ∷ (sweep 112 ∷ (charge 130 "login" rate ∷ []))))

two_granted : grants "login" calls table ≡ 2
unfolding grants
two_granted = refl

within : All (IsInWindow "login" 2 60 100) calls
within = (refl, (refl, (refl, (refl, (refl, tt)))))

positive : 0 < 2
positive = omega arith

grants-limit_example : grants "login" calls table ≤ 2
grants-limit_example = grants-limit "login" 2 60 100 calls table positive within refl
