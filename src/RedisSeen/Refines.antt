-- ===== src/RedisSeen/Refines.antt =====
-- The set in Redis answers as the in-memory dedup does, or with an error.
use dota2_analysis.Base.{
  ℕ, ◌≡◌, refl, sym, ap, subst, ◌∙◌, Bool, true, false, ◌⊎◌, inl, inr, List, [], ◌∷◌, Option, none,
  some, arith, ◌==◌, if◌then◌else◌, ite, map, Map, insert,
}
use dota2_analysis.Base.Text.{Text, Text-discrete}
use dota2_analysis.Dedup as Dedup
use dota2_analysis.Dedup.{Seen}
use dota2_analysis.Dedup.Marks.{mark_seen-is_seen}
use dota2_analysis.Link.{Session, call, call_cases}
use dota2_analysis.RedisSeen.{
  Server, Config, SeenError, command_failed, all_key, assign, on_added, mark_seen, on_bool, is_seen,
  on_flags, ask_each, on_smismember, smismember, check_batch,
}

-- What a Redis does with a set: SADD makes its argument a member and counts it if it was none, and
-- SMISMEMBER answers as SISMEMBER does for each.
pub record Sets (s : Server) : Type 0 where
  pub sadd_answer :
      (k m : Text) (db : s.Db) → (s.sadd k m db).0 ≡ (if s.sismember k m db then 0 else 1)
  pub sadd_member :
      (k m n : Text) (db : s.Db)
      → s.sismember k n (s.sadd k m db).1 ≡ ite (Text-discrete m n) true (s.sismember k n db)
  pub smismember_each :
      (k : Text) (ms : List Text) (bs : List Bool) (db : s.Db)
      → s.smismember_of k ms db ≡ some bs
      → bs ≡ map (λ m. s.sismember k m db) ms

assign-check_from :
    (f : Text → Bool) (seen : Seen) (keys : List Text) (result : Map Text Bool)
    → ((k : Text) → f k ≡ Dedup.is_seen k seen)
    → assign keys (map f keys) result ≡ Dedup.check_from keys seen result
unfolding assign Dedup.check_from
assign-check_from f seen [] result same = refl
assign-check_from f seen (k ∷ keys) result same =
    rw (same k)
      (assign-check_from f seen keys (insert Text-discrete k (Dedup.is_seen k seen) result) same)

module _ (s : Server) (w : Sets s) (cfg : Config) (is_set : cfg.use_bloom ≡ false)
    (for_ever : cfg.ttl ≡ 0) where
  -- The members of the set in Redis are the keys that were seen.
  abbrev pub Refines : s.Db → Seen → Type 0
  Refines db seen = (k : Text) → s.sismember (all_key cfg.key_prefix) k db ≡ Dedup.is_seen k seen

  -- A call ends with the error of a command, or with the answer.
  abbrev pub Answers : {A : Type 0} → (SeenError ⊎ A) × Session s.Db → A → Type 0
  Answers r a = (r.0 ≡ inl command_failed) ⊎ (r.0 ≡ inr a)

  on_added-answer :
      (r : Option ℕ × Session s.Db) (n : ℕ) → r.0 ≡ some n → (on_added s cfg r).0 ≡ inr (n == 0)
  unfolding on_added
  on_added-answer (none, st) n e = absurd (ground (arith, e))
  on_added-answer (some m, st) n e = ap (λ k. inr (k == 0)) (ground (arith, e))

  on_added-failed :
      (r : Option ℕ × Session s.Db) → r.0 ≡ none → (on_added s cfg r).0 ≡ inl command_failed
  unfolding on_added
  on_added-failed (none, st) e = refl
  on_added-failed (some m, st) e = absurd (ground (arith, e))

  on_added-session : (r : Option ℕ × Session s.Db) → (on_added s cfg r).1 ≡ r.1
  unfolding on_added
  on_added-session (none, st) = refl
  on_added-session (some m, st) = refl

  sadd-Refines :
      (key : Text) (db : s.Db) (seen : Seen)
      → Refines db seen
      → Refines (s.sadd (all_key cfg.key_prefix) key db).1 (Dedup.mark_seen key seen).1
  sadd-Refines key db seen r k =
      w.sadd_member (all_key cfg.key_prefix) key k db
      ∙ ap (λ b. ite (Text-discrete key k) true b) (r k)
      ∙ sym (mark_seen-is_seen key k seen).1

  sadd-answer :
      (key : Text) (db : s.Db) (seen : Seen)
      → Refines db seen
      → ((s.sadd (all_key cfg.key_prefix) key db).0 == 0) ≡ (Dedup.mark_seen key seen).0
  sadd-answer key db seen r =
      ap (λ n. n == 0) (w.sadd_answer (all_key cfg.key_prefix) key db)
      ∙ ap (λ b. (if b then 0 else 1) == 0) (r key)
      ∙ counted (Dedup.is_seen key seen)
      ∙ sym (mark_seen-is_seen key key seen).0
    where
      counted : (b : Bool) → ((if b then 0 else 1) == 0) ≡ b
      counted true = refl
      counted false = refl

  -- A call that marks the key answers as the in-memory dedup does, and then the set refines it with
  -- the key marked; or there is an error, and the key is marked or is not.
  abbrev pub Marks : Text → Seen → (SeenError ⊎ Bool) × Session s.Db → Type 0
  Marks key seen r =
      ((r.0 ≡ inr (Dedup.mark_seen key seen).0) × Refines r.1.db (Dedup.mark_seen key seen).1)
      ⊎ ((r.0 ≡ inl command_failed)
          × (Refines r.1.db seen ⊎ Refines r.1.db (Dedup.mark_seen key seen).1))

  on_added-Marks :
      (key : Text) (st : Session s.Db) (seen : Seen)
      → Refines st.db seen
      → Marks key seen (on_added s cfg (call (s.sadd (all_key cfg.key_prefix) key) st))
  on_added-Marks key st seen r =
      let c = s.sadd (all_key cfg.key_prefix) key in
      let kept = on_added-session (call c st) in
      let marked = sadd-Refines key st.db seen r in
      elim (call_cases c st) [
        | inl (a, d) ↦ inl (
          on_added-answer (call c st) _ a ∙ ap inr (sadd-answer key st.db seen r),
          λ k.
              ap (λ x. s.sismember (all_key cfg.key_prefix) k x.db) kept
              ∙ ap (s.sismember (all_key cfg.key_prefix) k) d
              ∙ marked k,
        )
        | inr (a, inl d) ↦ inr (
          on_added-failed (call c st) a,
          inl (λ k.
              ap (λ x. s.sismember (all_key cfg.key_prefix) k x.db) kept
              ∙ ap (s.sismember (all_key cfg.key_prefix) k) d
              ∙ r k),
        )
        | inr (a, inr d) ↦ inr (
          on_added-failed (call c st) a,
          inr (λ k.
              ap (λ x. s.sismember (all_key cfg.key_prefix) k x.db) kept
              ∙ ap (s.sismember (all_key cfg.key_prefix) k) d
              ∙ marked k),
        )
      ]

  mark_seen-Marks :
      (key : Text) (st : Session s.Db) (seen : Seen)
      → Refines st.db seen
      → Marks key seen (mark_seen s cfg key st)
  unfolding mark_seen
  mark_seen-Marks key st seen r =
      rw (is_set, mark_seen) (rw (for_ever, mark_seen) (on_added-Marks key st seen r))

  on_bool-Answers :
      (r : Option Bool × Session s.Db) (b : Bool)
      → (r.0 ≡ some b) ⊎ (r.0 ≡ none)
      → Answers (on_bool s cfg r) b
  unfolding on_bool
  on_bool-Answers (none, st) b e = inl refl
  on_bool-Answers (some a, st) b (inl e) = inr (ap inr (ground (arith, e)))
  on_bool-Answers (some a, st) b (inr e) = absurd (ground (arith, e))

  asked :
      {A : Type 0} (f : s.Db → A) (st : Session s.Db) (a : A)
      → f st.db ≡ a
      → ((call (λ db. (f db, db)) st).0 ≡ some a) ⊎ ((call (λ db. (f db, db)) st).0 ≡ none)
  asked f st a e = elim (call_cases (λ db. (f db, db)) st) [
    | inl (p, d) ↦ inl (p ∙ ap some e)
    | inr (p, d) ↦ inr p
  ]

  is_seen-Answers :
      (key : Text) (st : Session s.Db) (seen : Seen)
      → Refines st.db seen
      → Answers (is_seen s cfg key st) (Dedup.is_seen key seen)
  unfolding is_seen
  is_seen-Answers key st seen r =
      rw (is_set, is_seen)
        (rw (for_ever, is_seen)
          (on_bool-Answers _ _ (asked (s.sismember (all_key cfg.key_prefix) key) st _ (r key))))

  assign-check_batch :
      (keys : List Text) (bs : List Bool) (db : s.Db) (seen : Seen)
      → Refines db seen
      → bs ≡ map (λ k. s.sismember (all_key cfg.key_prefix) k db) keys
      → assign keys bs [] ≡ Dedup.check_batch keys seen
  unfolding Dedup.check_batch
  assign-check_batch keys bs db seen r e =
      ap (λ l. assign keys l []) e
      ∙ assign-check_from (λ k. s.sismember (all_key cfg.key_prefix) k db) seen keys [] r

  on_flags-Answers :
      (keys : List Text) (r : Option (List Bool) × Session s.Db) (bs : List Bool)
      → (r.0 ≡ some bs) ⊎ (r.0 ≡ none)
      → Answers (on_flags s cfg keys r) (assign keys bs [])
  unfolding on_flags
  on_flags-Answers keys (none, st) bs e = inl refl
  on_flags-Answers keys (some a, st) bs (inl e) =
      inr (ap (λ l. inr (assign keys l [])) (ground (arith, e)))
  on_flags-Answers keys (some a, st) bs (inr e) = absurd (ground (arith, e))

  ask_each-Answers :
      (keys : List Text) (st : Session s.Db) (seen : Seen)
      → Refines st.db seen
      → Answers (ask_each s cfg keys st) (Dedup.check_batch keys seen)
  unfolding ask_each
  ask_each-Answers keys st seen r =
      let bs = map (λ k. s.sismember (all_key cfg.key_prefix) k st.db) keys in
      subst (Answers (ask_each s cfg keys st)) (assign-check_batch keys bs st.db seen r refl) (
        on_flags-Answers keys _ bs
          (asked (λ db. map (λ k. s.sismember (all_key cfg.key_prefix) k db) keys) st bs refl))

  on_smismember-Answers :
      (keys : List Text) (r : Option (Option (List Bool)) × Session s.Db) (seen : Seen)
      → Refines r.1.db seen
      → ((bs : List Bool)
          → r.0 ≡ some (some bs)
          → bs ≡ map (λ k. s.sismember (all_key cfg.key_prefix) k r.1.db) keys)
      → Answers (on_smismember s cfg keys r) (Dedup.check_batch keys seen)
  unfolding on_smismember
  on_smismember-Answers keys (none, st) seen r each = ask_each-Answers keys st seen r
  on_smismember-Answers keys (some none, st) seen r each = ask_each-Answers keys st seen r
  on_smismember-Answers keys (some (some bs), st) seen r each =
      inr (ap inr (assign-check_batch keys bs st.db seen r (each bs refl)))

  smismember-Answers :
      (keys : List Text) (st : Session s.Db) (seen : Seen)
      → Refines st.db seen
      → Answers (smismember s cfg keys st) (Dedup.check_batch keys seen)
  unfolding smismember
  smismember-Answers keys st seen r =
      let ask = λ (db : s.Db). s.smismember_of (all_key cfg.key_prefix) keys db in
      let c : s.Db → Option (List Bool) × s.Db = λ db. (ask db, db) in
      let here : (call c st).1.db ≡ st.db = elim (call_cases c st) [
        | inl (p, d) ↦ d
        | inr (p, inl d) ↦ d
        | inr (p, inr d) ↦ d
      ] in
      on_smismember-Answers keys (call c st) seen
        (λ k. ap (s.sismember (all_key cfg.key_prefix) k) here ∙ r k)
        (λ bs e. elim (asked ask st (ask st.db) refl) [
          | inl p ↦
              w.smismember_each (all_key cfg.key_prefix) keys bs st.db (ground (arith, e, p))
              ∙ ap (λ db. map (λ k. s.sismember (all_key cfg.key_prefix) k db) keys) (sym here)
          | inr n ↦ absurd (ground (arith, e, n))
        ])

  check_batch-Answers :
      (keys : List Text) (st : Session s.Db) (seen : Seen)
      → Refines st.db seen
      → Answers (check_batch s cfg keys st) (Dedup.check_batch keys seen)
  unfolding check_batch
  check_batch-Answers keys st seen r =
      rw (is_set, check_batch) (rw (for_ever, check_batch) (smismember-Answers keys st seen r))

  -- Without a Bloom filter and without a time to live, let the set in Redis hold the keys that the
  -- in-memory dedup has seen. Then `MarkSeen` answers as the in-memory one does, and both hold the
  -- same keys again; or it ends with an error, and the key is marked or is not. `IsSeen` and
  -- `CheckBatch` answer as the in-memory ones do, or end with an error.
  pub redis_seen-Refines :
      (key : Text) (keys : List Text) (st : Session s.Db) (seen : Seen)
      → Refines st.db seen
      → Marks key seen (mark_seen s cfg key st)
        × Answers (is_seen s cfg key st) (Dedup.is_seen key seen)
        × Answers (check_batch s cfg keys st) (Dedup.check_batch keys seen)
  redis_seen-Refines key keys st seen r = (
    mark_seen-Marks key st seen r,
    is_seen-Answers key st seen r,
    check_batch-Answers keys st seen r,
  )
