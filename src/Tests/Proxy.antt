-- ===== src/Tests/Proxy.antt =====
-- The pool of proxies: go-ingestion/internal/proxy/inmem.
use dota2_analysis.Base.{◌≡◌, refl, false, [], ◌∷◌, lookup, insert, ℕ_discrete}
use dota2_analysis.Base.Text.{Text, codes, Text-discrete}
use dota2_analysis.Proxy.{Pool, Lease, ok, err, no_proxy, is_leased, acquire}
use dota2_analysis.Proxy.Acquire.{Taken, acquire-Taken}

abbrev a : Text
a = codes "http://a"

abbrev b : Text
b = codes "http://b"

-- `a` is handed out, and the cursor is past the end of a list that has shrunk.
abbrev pool : Pool
pool = record { proxies = a ∷ b ∷ []; cursor = 2; leased = (a, tt) ∷ []; stats = [] }

abbrev lease : Lease
lease = record { url = b; released = false }

abbrev after : Pool
after = record { proxies = a ∷ b ∷ []; cursor = 0; leased = (b, tt) ∷ (a, tt) ∷ []; stats = [] }

acquire_second : acquire false pool ≡ ok (lease, after)
unfolding acquire is_leased lookup insert Text-discrete ℕ_discrete
acquire_second = refl

acquire_third : acquire false after ≡ err no_proxy
unfolding acquire is_leased lookup Text-discrete ℕ_discrete
acquire_third = refl

acquire-Taken_example : (false ≡ false) × Taken pool 0 b after
acquire-Taken_example = acquire-Taken pool acquire_second
