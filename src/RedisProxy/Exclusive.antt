-- ===== src/RedisProxy/Exclusive.antt =====
-- The leases of the pool in Redis: a proxy is held by one lease at a time.
use dota2_analysis.Base.{
  ℕ, ◌≤◌, ◌<◌, ◌+◌, ◌≡◌, ◌≢◌, ◌⊎◌, sym, ap, subst, ◌∙◌, inl, inr, some, arith,
}
use dota2_analysis.Base.Text.{Text, Text-discrete}
use dota2_analysis.RedisProxy.{Server, leased_key, lease_key, lease_out}
use dota2_analysis.RedisProxy.Laws.{Laws, keep_from, Free, lease_key-cancel}

keep_from-some : (now e : ℕ) → now < e → keep_from now (some e) ≡ some e
unfolding keep_from
keep_from-some now e lt = ground arith

module _ (s : Server) (w : Laws s) (prefix : Text) where
  -- The token holds a lease of the url that lasts until `e`.
  abbrev pub Holds : ℕ → s.Db → (token url : Text) (e : ℕ) → Type 0
  Holds now db token url e = (w.stored (lease_key prefix token) db ≡ some (url, e)) × (now < e)

  -- The proxy of a lease is among those that are leased, for as long, and two leases that last
  -- have different proxies.
  pub record IsExclusive (now : ℕ) (db : s.Db) : Type 0 where
    pub listed :
        (t u : Text) (e : ℕ) → Holds now db t u e → s.zscore_time (leased_key prefix) u db ≡ some e
    pub single : (t t' u : Text) (e e' : ℕ) → Holds now db t u e → Holds now db t' u e' → t ≡ t'

  pub later-IsExclusive :
      (now later : ℕ) (db : s.Db) → now ≤ later → IsExclusive now db → IsExclusive later db
  later-IsExclusive now later db le x = record {
    listed = λ t u e h. x.listed t u e (h.0, omega (arith, h.1));
    single = λ t t' u e e' h h'.
        x.single t t' u e e' (h.0, omega (arith, h.1)) (h'.0, omega (arith, h'.1));
  }

  pub same-IsExclusive :
      (now : ℕ) (a b : s.Db)
      → ((t : Text) → w.stored (lease_key prefix t) b ≡ w.stored (lease_key prefix t) a)
      → ((m : Text) (e : ℕ)
          → now < e
          → s.zscore_time (leased_key prefix) m a ≡ some e
          → s.zscore_time (leased_key prefix) m b ≡ some e)
      → IsExclusive now a
      → IsExclusive now b
  same-IsExclusive now a b st tm x = record {
    listed = λ t u e h. tm u e h.1 (x.listed t u e (sym (st t) ∙ h.0, h.1));
    single =
        λ t t' u e e' h h'. x.single t t' u e e' (sym (st t) ∙ h.0, h.1) (sym (st t') ∙ h'.0, h'.1);
  }

  pub clean-IsExclusive :
      (now : ℕ) (db : s.Db)
      → IsExclusive now db
      → IsExclusive now (s.zremrangebyscore (leased_key prefix) now db)
  clean-IsExclusive now db x =
      same-IsExclusive now db _
        (λ t. w.below_stored (leased_key prefix) (lease_key prefix t) now db)
        (λ m e lt p.
          w.below_time (leased_key prefix) m now db
          ∙ ap (keep_from now) p
          ∙ keep_from-some now e lt)
        x

  module _ (now ttl : ℕ) (token url : Text) (db : s.Db) (x : IsExclusive now db)
      (free : Free s (leased_key prefix) db url) where
    abbrev leased_db : s.Db
    leased_db = (lease_out s now (leased_key prefix) (lease_key prefix token) url ttl db).1

    stored_other :
        (t : Text)
        → token ≢ t
        → w.stored (lease_key prefix t) leased_db ≡ w.stored (lease_key prefix t) db
    unfolding lease_out
    stored_other t n =
        w.set_ne now ttl _ url _ _ (λ e. n (lease_key-cancel prefix token t e))
        ∙ w.zadd_stored (leased_key prefix) url _ (now + ttl) db

    stored_new : w.stored (lease_key prefix token) leased_db ≡ some (url, now + ttl)
    unfolding lease_out
    stored_new = w.set_self now ttl _ url _

    time_new : s.zscore_time (leased_key prefix) url leased_db ≡ some (now + ttl)
    unfolding lease_out
    time_new = w.set_time now ttl _ url _ url _ ∙ w.zadd_self (leased_key prefix) url (now + ttl) db

    time_other :
        (u : Text)
        → url ≢ u
        → s.zscore_time (leased_key prefix) u leased_db ≡ s.zscore_time (leased_key prefix) u db
    unfolding lease_out
    time_other u n =
        w.set_time now ttl _ url _ u _ ∙ w.zadd_member (leased_key prefix) url u (now + ttl) db n

    not_free : (t : Text) (e : ℕ) → Holds now db t url e → ⊥
    not_free t e h = absurd (ground (arith, x.listed t url e h, free))

    -- A lease after the new one is the new one, or one from before with another proxy.
    Holds-cases :
        (t u : Text) (e : ℕ)
        → Holds now leased_db t u e
        → ((t ≡ token) × (u ≡ url) × (e ≡ now + ttl)) ⊎ (Holds now db t u e × (url ≢ u))
    Holds-cases t u e h = elim (Text-discrete token t) [
      | yes same ↦
          let p = sym stored_new ∙ ap (λ k. w.stored (lease_key prefix k) leased_db) same ∙ h.0 in
          inl (sym same, ground (arith, p), ground (arith, p))
      | no n ↦
          let old : Holds now db t u e = (sym (stored_other t n) ∙ h.0, h.1) in
          inr (old, λ same. not_free t e (subst (λ v. Holds now db t v e) (sym same) old))
    ]

    pub lease_out-IsExclusive : IsExclusive now leased_db
    lease_out-IsExclusive = record {
      listed = λ t u e h. elim (Holds-cases t u e h) [
        | inl (p, q, r) ↦
            ap (λ v. s.zscore_time (leased_key prefix) v leased_db) q ∙ time_new ∙ ap some (sym r)
        | inr (old, n) ↦ time_other u n ∙ x.listed t u e old
      ];
      single = λ t t' u e e' h h'. elim (Holds-cases t u e h) [
        | inl (p, q, r) ↦ elim (Holds-cases t' u e' h') [
          | inl (p', q', r') ↦ p ∙ sym p'
          | inr (old, n) ↦ absurd (n (sym q))
        ]
        | inr (old, n) ↦ elim (Holds-cases t' u e' h') [
          | inl (p', q', r') ↦ absurd (n (sym q'))
          | inr (old', n') ↦ x.single t t' u e e' old old'
        ]
      ];
    }
