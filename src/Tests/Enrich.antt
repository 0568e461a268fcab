-- ===== src/Tests/Enrich.antt =====
-- The enrichment runner and its gate: go-ingestion/internal/enrich.
use mathlib.Core.List.{
  Mem, Mem-prop, mem-cons_self, mem-cons_of_mem, Nodup, Nodup-cons, Nodup-nil, mem-cons,
  not-mem-nil,
}
use mathlib.Core.Logic.Or
use mathlib.Core.HLevel.{⊥_prop}
use native.Mathlib.Bridge.{le_prop}
use dota2_analysis.Base.{
  ℕ, ◌+◌, ◌*◌, ◌<◌, ◌≡◌, ◌≢◌, refl, sym, ap, true, false, inl, inr, ◌↔◌, List, [], ◌∷◌, Option,
  none, some, ite, if_pos, if_neg, if◌then◌else◌, arith, ℕ_discrete, lookup, insert, ◌==◌, subst,
}
use dota2_analysis.Base.Text.{Text, Text-discrete, codes}
use dota2_analysis.Enrich.{
  RunSource, cycle, missing, stalled, names, set_flag, sort_by_dependencies,
}
use dota2_analysis.Enrich.Terminates.{sort_by_dependencies_terminates}
use dota2_analysis.Enrich.Ordered.{IsOrdered, sort_by_dependencies-IsOrdered}
use dota2_analysis.Enrich.Resolves.{sort_by_dependencies_resolves}
use dota2_analysis.Enrich.Run.{Env, State, run}
use dota2_analysis.Enrich.Run.Twice.{Keeps, IsQuiet, IsSoon, run-run}
use dota2_analysis.Gate.{
  second, minute, RunOutcome, interval, Config, Stored, GetReply, nil, value, RedisClient,
  should_run, record_run, redis_gate,
}
use dota2_analysis.Gate.Ages.{Expires, expired, due, should_run-record_run}

abbrev source : Text → List Text → RunSource
source name deps = record { name = name; depends_on = deps; critical = false }

abbrev heroes : RunSource
heroes = source (codes "heroes") []

abbrev items : RunSource
items = source (codes "items") (codes "heroes" ∷ [])

abbrev both : List RunSource
both = items ∷ heroes ∷ []

abbrev ring : List RunSource
ring = source (codes "a") (codes "b" ∷ []) ∷ source (codes "b") (codes "a" ∷ []) ∷ []

both_sorted : sort_by_dependencies both ≡ inr (heroes ∷ items ∷ [])
unfolding sort_by_dependencies Text-discrete ℕ_discrete lookup insert set_flag
both_sorted = refl

ring_fails : sort_by_dependencies ring ≡ inl (cycle (codes "a"))
unfolding sort_by_dependencies Text-discrete ℕ_discrete lookup insert set_flag
ring_fails = refl

lost_fails : sort_by_dependencies (items ∷ []) ≡ inl (missing (codes "heroes") (codes "items"))
unfolding sort_by_dependencies Text-discrete ℕ_discrete lookup insert set_flag
lost_fails = refl

sort_by_dependencies_terminates_example : sort_by_dependencies ring ≢ inl stalled
sort_by_dependencies_terminates_example = sort_by_dependencies_terminates ring

sort_by_dependencies-IsOrdered_example :
    IsOrdered [] (heroes ∷ items ∷ [])
    × Nodup (names (heroes ∷ items ∷ []))
    × ((n : Text) → Mem n (names both) ↔ Mem n (names (heroes ∷ items ∷ [])))
    × ((s : RunSource) → Mem s (heroes ∷ items ∷ []) → Mem s both)
sort_by_dependencies-IsOrdered_example =
    sort_by_dependencies-IsOrdered both (heroes ∷ items ∷ []) both_sorted

-- "items" is ranked above "heroes".
abbrev rank : Text → ℕ
rank [] = 0
rank (c ∷ cs) = if c == 105 then 1 else 0

-- What a dependency of one of the two sources satisfies.
abbrev Falls : RunSource → Text → Type 0
Falls s d = Mem d (names both) × (rank d < rank s.name)

Falls-prop : (s : RunSource) (d : Text) → IsProp (Falls s d)
Falls-prop s d = hlevel (Mem-prop, le_prop)

both_fall : (s : RunSource) → Mem s both → (d : Text) → Mem d s.depends_on → Falls s d
both_fall s i d j =
    Or.elim (Falls-prop s d) (mem-cons.0 i) (λ e. first e (subst (λ t. Mem d t.depends_on) e j))
      (λ i'.
        Or.elim (Falls-prop s d) (mem-cons.0 i')
          (λ e. absurd (not-mem-nil (subst (λ t. Mem d t.depends_on) e j)))
          (λ k. absurd (not-mem-nil k)))
  where
    first : s ≡ items → Mem d (codes "heroes" ∷ []) → Falls s d
    first e m =
        Or.elim (Falls-prop s d) (mem-cons.0 m)
          (λ at.
            subst (λ t. Falls t d) (sym e)
              (subst (λ n. Falls items n) (sym at)
                (mem-cons_of_mem (codes "items") mem-cons_self, omega arith)))
          (λ k. absurd (not-mem-nil k))

sort_by_dependencies_resolves_example :
    (sorted : List RunSource) × (sort_by_dependencies both ≡ inr sorted)
sort_by_dependencies_resolves_example = sort_by_dependencies_resolves both rank both_fall

-- A Redis that is a function from keys to values, each with its time and its expiration.
abbrev Table : Type 0
Table = Text → Option (Stored × ℕ × ℕ)

reply_at : ℕ → Option (Stored × ℕ × ℕ) → GetReply
reply_at now none = nil
reply_at now (some (v, since, ttl)) = if expired ttl since now then nil else value v

count_at : ℕ → Option (Stored × ℕ × ℕ) → Option ℕ
count_at now none = some 0
count_at now (some (v, since, ttl)) = some (if expired ttl since now then 0 else 1)

put_at : ℕ → Text → Stored → ℕ → Table → Table
put_at now k v ttl table j = ite (Text-discrete k j) (some (v, now, ttl)) (table j)

abbrev client : RedisClient
client = record {
  Db = Table;
  exists = λ now k table. count_at now (table k);
  get = λ now k table. reply_at now (table k);
  set = λ now k v ttl table. (true, put_at now k v ttl table);
}

put_at_self :
    (now : ℕ) (k : Text) (v : Stored) (ttl : ℕ) (table : Table)
    → put_at now k v ttl table k ≡ some (v, now, ttl)
unfolding put_at
put_at_self now k v ttl table = if_pos (Text-discrete k k) refl _ _

put_at_ne :
    (now : ℕ) (k j : Text) (v : Stored) (ttl : ℕ) (table : Table)
    → k ≢ j
    → put_at now k v ttl table j ≡ table j
unfolding put_at
put_at_ne now k j v ttl table n = if_neg (Text-discrete k j) n _ _

client_expires : Expires client
unfolding reply_at count_at
client_expires = record {
  get_set = λ now later k v ttl table ok after. ap (reply_at later) (put_at_self now k v ttl table);
  exists_set =
      λ now later k v ttl table ok after. ap (count_at later) (put_at_self now k v ttl table);
}

client_keeps : Keeps client
client_keeps = record {
  expires = client_expires;
  set_ok = λ now k v ttl table. refl;
  get_set_ne = λ now later k j v ttl table n. ap (reply_at later) (put_at_ne now k j v ttl table n);
}

abbrev hourly : Config
hourly = record { prefix = codes "enrich"; min_age = 60 * minute; ttl = 0; mode = interval }

abbrev ran : RunOutcome
ran = record { success = true; err = []; at = 2 * second + 5 }

should_run-record_run_example :
    should_run client hourly
      (9 * second)
      (codes "heroes")
      (record_run client hourly (3 * second) (codes "heroes") ran (λ _. none)).1
    ≡ some (due hourly ran (3 * second) (9 * second))
unfolding record_run
should_run-record_run_example =
    should_run-record_run client hourly client_expires (codes "heroes") ran (3 * second)
      (9 * second) (λ _. none) (omega arith) (omega arith) refl

-- Each source takes a second, and "items" fails.
abbrev env : Env
env = record {
  World = ℕ;
  run_source = λ s w. ((if rank s.name == 1 then some (codes "no") else none), w + second);
  ctx_err = λ w. none;
  now = λ w. w;
}

env_quiet : IsQuiet env
env_quiet = record { forward = λ s w. omega arith; live = λ w. refl }

abbrev begin : State env (redis_gate client hourly)
begin = record { world = 7 * second; store = λ _. none }

abbrev end_state : State env (redis_gate client hourly)
end_state = (run env (redis_gate client hourly) both begin).1

both_distinct : Nodup (names both)
both_distinct = Nodup-cons.1 (
  λ m. Or.elim ⊥_prop (mem-cons.0 m) items-ne-heroes (λ k. not-mem-nil k),
  Nodup-cons.1 (not-mem-nil, Nodup-nil),
)
  where
    items-ne-heroes : codes "items" ≡ codes "heroes" → ⊥
    items-ne-heroes e = ground arith

first_run_ends : run env (redis_gate client hourly) both begin ≡ (none, end_state)
unfolding run Text-discrete ℕ_discrete should_run record_run reply_at put_at
first_run_ends = refl

end_state-IsSoon : IsSoon hourly (env.now begin.world) (env.now end_state.world)
unfolding run Text-discrete ℕ_discrete should_run record_run reply_at put_at
end_state-IsSoon = omega arith

run-run_example : run env (redis_gate client hourly) both end_state ≡ (none, end_state)
unfolding reply_at
run-run_example =
    run-run env client hourly client_keeps env_quiet refl both begin end_state both_distinct
      (λ n i t. refl) first_run_ends end_state-IsSoon
