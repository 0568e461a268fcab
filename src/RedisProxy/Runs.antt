-- ===== src/RedisProxy/Runs.antt =====
-- Whatever leases are taken, returned and marked, however far the commands get, the leases of the
-- pool in Redis stay exclusive.
use dota2_analysis.Base.{
  ℕ, ◌<◌, ◌≡◌, ◌≢◌, refl, sym, ap, subst, ◌∙◌, inl, inr, [], ◌∷◌, Option, none, some, arith, ltb,
  Bool-cases,
}
use dota2_analysis.Base.Text.{Text, Text-discrete}
use dota2_analysis.RedisProxy.{
  Server, leased_key, lease_key, on_pick, acquire_script, on_lease, release_script,
}
use dota2_analysis.RedisProxy.Exclusive.{
  Holds, IsExclusive, same-IsExclusive, clean-IsExclusive, lease_out-IsExclusive,
}
use dota2_analysis.RedisProxy.Laws.{
  Laws, live, Free, scan-Free, All-get_elem?, lease_key-cancel, lease_key-leased_key,
}

live-some :
    (now : ℕ) (o : Option (Text × ℕ)) (url : Text)
    → live now o ≡ some url
    → (e : ℕ) × (o ≡ some (url, e)) × (now < e)
unfolding live
live-some now none url p = absurd (ground (arith, p))
live-some now (some (v, e)) url p = elim (Bool-cases (ltb now e)) [
  | inl t ↦
      let q : some v ≡ some url = sym (rw (t, live) refl) ∙ p in
      (e, ap (λ u. some (u, e)) (ground (arith, q)), ground (arith, t))
  | inr f ↦ let q : none ≡ some url = sym (rw (f, live) refl) ∙ p in absurd (ground (arith, q))
]

module _ (s : Server) (w : Laws s) (prefix : Text) where
  abbrev Good : ℕ → s.Db → Type 0
  Good now db = IsExclusive s w prefix now db

  on_pick-Good :
      (now ttl : ℕ) (token : Text) (o : Option Text) (db : s.Db)
      → Good now db
      → ((u : Text) → o ≡ some u → Free s (leased_key prefix) db u)
      → Good now (on_pick s now (leased_key prefix) (lease_key prefix token) ttl o db).1
  unfolding on_pick
  on_pick-Good now ttl token none db x free = x
  on_pick-Good now ttl token (some url) db x free =
      lease_out-IsExclusive s w prefix now ttl token url db x (free url refl)

  pub acquire_script-Good :
      (now ttl top seed : ℕ) (set token : Text) (db : s.Db)
      → Good now db
      → Good now
          (acquire_script s set (leased_key prefix) (lease_key prefix token) ttl top seed now db).1
  unfolding acquire_script
  acquire_script-Good now ttl top seed set token db x =
      let cleaned = s.zremrangebyscore (leased_key prefix) now db in
      on_pick-Good now ttl token _ cleaned (clean-IsExclusive s w prefix now db x) (λ u e.
        All-get_elem? (Free s (leased_key prefix) cleaned) _ _ u
          (scan-Free s set (leased_key prefix) top 10 0 cleaned) e)

  module _ (now : ℕ) (token url : Text) (e : ℕ) (db : s.Db) (x : Good now db)
      (held : Holds s w prefix now db token url e) where
    abbrev freed : s.Db
    freed = s.del (lease_key prefix token ∷ []) (s.zrem_time (leased_key prefix) url db)

    others :
        (t u : Text) (f : ℕ)
        → Holds s w prefix now freed t u f
        → Holds s w prefix now db t u f × (url ≢ u)
    others t u f h = elim (Text-discrete token t) [
      | yes same ↦
          let gone =
            sym (w.del_self (lease_key prefix token) (s.zrem_time (leased_key prefix) url db)) in
          absurd (ground (arith, gone ∙ ap (λ k. w.stored (lease_key prefix k) freed) same ∙ h.0))
      | no n ↦
          let old : Holds s w prefix now db t u f = (
            sym (w.zrem_stored (leased_key prefix) url (lease_key prefix t) db)
                ∙ sym (w.del_ne _ _ _ (λ p. n (lease_key-cancel prefix token t p)))
                ∙ h.0,
            h.1,
          ) in
          (
            old,
            λ same. n (
                x.single token t u e f (subst (λ v. Holds s w prefix now db token v e) same held)
                  old),
          )
    ]

    freed-Good : Good now freed
    freed-Good = record {
      listed = λ t u f h.
          let (old, n) = others t u f h in
          w.del_time _ (leased_key prefix) u _ (lease_key-leased_key prefix token)
          ∙ w.zrem_member (leased_key prefix) url u db n
          ∙ x.listed t u f old;
      single = λ t t' u f f' h h'. x.single t t' u f f' (others t u f h).0 (others t' u f' h').0;
    }

  on_lease-Good :
      (now : ℕ) (token : Text) (o : Option Text) (db : s.Db)
      → Good now db
      → live now (w.stored (lease_key prefix token) db) ≡ o
      → Good now (on_lease s (leased_key prefix) (lease_key prefix token) o db).1
  unfolding on_lease
  on_lease-Good now token none db x p = x
  on_lease-Good now token (some url) db x p =
      let (e, q, lt) = live-some now _ url p in freed-Good now token url e db x (q, lt)

  pub release_script-Good :
      (now : ℕ) (token : Text) (db : s.Db)
      → Good now db
      → Good now (release_script s now (leased_key prefix) (lease_key prefix token) db).1
  unfolding release_script
  release_script-Good now token db x =
      on_lease-Good now token _ db x (sym (w.get-stored now (lease_key prefix token) db))

  pub alike-Good : (now : ℕ) (a b : s.Db) → w.Same a b → Good now a → Good now b
  alike-Good now a b same x =
      same-IsExclusive s w prefix now a b (λ t. w.same_stored a b same (lease_key prefix t))
        (λ m e lt p. w.same_time a b same (leased_key prefix) m ∙ p) x
