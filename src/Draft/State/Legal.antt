-- ===== src/Draft/State/Legal.antt =====
-- Which heroes `LegalHeroes` offers.
use mathlib.Core.Bool.{false≢true}
use mathlib.Core.List.{Memᴰ}
use dota2_analysis.Base.{
  ℕ, ◌≡◌, refl, sym, ◌≢◌, ◌⊎◌, ◌↔◌, inl, inr, ◌∙◌, Bool, true, false, not, ◌&&◌, ◌||◌, List, [],
  ◌∷◌, ◌==◌, arith, if◌then◌else◌, ℤ, Map, insert, lookup, lookup-insert, ℕ_discrete, Bool-cases,
  ==_iff,
}
use dota2_analysis.Draft.Phases.{Phase}
use dota2_analysis.Draft.State.{
  Side, us, them, TeamSlot, is_drafted, mark_drafted, new_draft_state, legal_from, legal_heroes,
}

contains : List ℕ → ℕ → Bool
contains [] a = false
contains (x ∷ xs) a = x == a || contains xs a

contains-Memᴰ : (xs : List ℕ) (a : ℕ) → contains xs a ≡ true → Memᴰ a xs
unfolding contains
contains-Memᴰ [] a h = cc
contains-Memᴰ (x ∷ xs) a h = elim (Bool-cases (x == a)) [
  | inl e ↦ Memᴰ.head (sym ((==_iff x a).0 e))
  | inr n ↦ Memᴰ.tail (contains-Memᴰ xs a (ground arith))
]

Memᴰ-contains : (xs : List ℕ) (a : ℕ) → Memᴰ a xs → contains xs a ≡ true
unfolding contains
Memᴰ-contains [] a m = elim m [ ]
Memᴰ-contains (x ∷ xs) a (Memᴰ.head e) = ground arith
Memᴰ-contains (x ∷ xs) a (Memᴰ.tail m) = ground (arith, Memᴰ-contains xs a m)

is_drafted-mark_drafted :
    (hs : List ℕ) (m : Map ℕ Bool) (a : ℕ)
    → is_drafted (mark_drafted hs m) a ≡ (contains hs a || is_drafted m a)
unfolding mark_drafted contains is_drafted
is_drafted-mark_drafted [] m a = refl
is_drafted-mark_drafted (h ∷ hs) m a = ground (
  arith,
  is_drafted-mark_drafted hs (insert ℕ_discrete h true m) a,
  lookup-insert ℕ_discrete h a true m,
)

is_drafted_nil : (a : ℕ) → is_drafted [] a ≡ false
unfolding is_drafted lookup
is_drafted_nil a = refl

Memᴰ-legal_from :
    (drafted : Map ℕ Bool) (catalog : List ℕ) (a : ℕ)
    → Memᴰ a (legal_from drafted catalog)
    → Memᴰ a catalog × (a ≢ 0) × (is_drafted drafted a ≡ false)
unfolding legal_from
Memᴰ-legal_from drafted [] a m = elim m [ ]
Memᴰ-legal_from drafted (id ∷ catalog) a m =
    round (not (id == 0) && not (is_drafted drafted id)) refl (Memᴰ-legal_from drafted catalog a) m
  where
    IsLegal : List ℕ → Type 0
    IsLegal ids = Memᴰ a ids × (a ≢ 0) × (is_drafted drafted a ≡ false)

    round :
        (b : Bool)
        → (not (id == 0) && not (is_drafted drafted id)) ≡ b
        → (Memᴰ a (legal_from drafted catalog) → IsLegal catalog)
        → Memᴰ a (if b then id ∷ legal_from drafted catalog else legal_from drafted catalog)
        → IsLegal (id ∷ catalog)
    round true e rest (Memᴰ.head h) = (Memᴰ.head h, ground arith, ground arith)
    round true e rest (Memᴰ.tail m) = let r = rest m in (Memᴰ.tail r.0, r.1, r.2)
    round false e rest m = let r = rest m in (Memᴰ.tail r.0, r.1, r.2)

legal_from-Memᴰ :
    (drafted : Map ℕ Bool) (catalog : List ℕ) (a : ℕ)
    → Memᴰ a catalog
    → a ≢ 0
    → is_drafted drafted a ≡ false
    → Memᴰ a (legal_from drafted catalog)
unfolding legal_from
legal_from-Memᴰ drafted [] a m n d = elim m [ ]
legal_from-Memᴰ drafted (id ∷ catalog) a (Memᴰ.head e) n d =
    let test : (not (id == 0) && not (is_drafted drafted id)) ≡ true = ground arith in
    rw test (Memᴰ.head e)
legal_from-Memᴰ drafted (id ∷ catalog) a (Memᴰ.tail m) n d =
    elim (Bool-cases (not (id == 0) && not (is_drafted drafted id))) [
      | inl e ↦ rw e (Memᴰ.tail (legal_from-Memᴰ drafted catalog a m n d))
      | inr e ↦ rw e (legal_from-Memᴰ drafted catalog a m n d)
    ]

contains_iff : (xs : List ℕ) (a : ℕ) → (contains xs a ≡ true) ↔ Memᴰ a xs
contains_iff xs a = (contains-Memᴰ xs a, Memᴰ-contains xs a)

marked_iff :
    (p₁ p₂ b₁ b₂ : List ℕ) (a : ℕ)
    → (is_drafted (mark_drafted b₂ (mark_drafted b₁ (mark_drafted p₂ (mark_drafted p₁ [])))) a
        ≡ true)
      ↔ (Memᴰ a p₁ ⊎ Memᴰ a p₂ ⊎ Memᴰ a b₁ ⊎ Memᴰ a b₂)
marked_iff p₁ p₂ b₁ b₂ a = ground (
  arith,
  is_drafted-mark_drafted b₂ (mark_drafted b₁ (mark_drafted p₂ (mark_drafted p₁ []))) a,
  is_drafted-mark_drafted b₁ (mark_drafted p₂ (mark_drafted p₁ [])) a,
  is_drafted-mark_drafted p₂ (mark_drafted p₁ []) a,
  is_drafted-mark_drafted p₁ [] a,
  is_drafted_nil a,
  contains_iff p₁ a,
  contains_iff p₂ a,
  contains_iff b₁ a,
  contains_iff b₂ a,
)

-- A hero was picked or banned by one of the teams.
abbrev pub InDraft : TeamSlot → TeamSlot → ℕ → Type 0
InDraft rad dir a = Memᴰ a rad.picks ⊎ Memᴰ a dir.picks ⊎ Memᴰ a rad.bans ⊎ Memᴰ a dir.bans

drafted_iff :
    (patch : ℕ) (side : Side) (phases : List Phase) (rad dir : TeamSlot) (slot : ℤ) (a : ℕ)
    → (is_drafted (new_draft_state patch side phases rad dir slot).drafted a ≡ true)
      ↔ InDraft rad dir a
unfolding new_draft_state
drafted_iff patch us phases rad dir slot a = marked_iff rad.picks dir.picks rad.bans dir.bans a
drafted_iff patch them phases rad dir slot a =
    ground (arith, marked_iff dir.picks rad.picks dir.bans rad.bans a)

-- Whichever side the user is on, the legal heroes are exactly the heroes of the catalog, without
-- the "no hero" stub 0, that neither team has picked or banned.
pub legal_heroes_iff :
    (patch : ℕ) (side : Side) (phases : List Phase) (rad dir : TeamSlot) (slot : ℤ)
    (catalog : List ℕ) (a : ℕ)
    → Memᴰ a (legal_heroes (new_draft_state patch side phases rad dir slot) catalog)
      ↔ (Memᴰ a catalog × (a ≢ 0) × ¬ InDraft rad dir a)
unfolding legal_heroes
legal_heroes_iff patch side phases rad dir slot catalog a = (to, from)
  where
    drafted : Map ℕ Bool
    drafted = (new_draft_state patch side phases rad dir slot).drafted

    meant : (is_drafted drafted a ≡ true) ↔ InDraft rad dir a
    meant = drafted_iff patch side phases rad dir slot a

    to : Memᴰ a (legal_from drafted catalog) → Memᴰ a catalog × (a ≢ 0) × ¬ InDraft rad dir a
    to m =
        let r = Memᴰ-legal_from drafted catalog a m in
        (r.0, r.1, λ i. false≢true (sym r.2 ∙ meant.1 i))

    from : Memᴰ a catalog × (a ≢ 0) × ¬ InDraft rad dir a → Memᴰ a (legal_from drafted catalog)
    from r = elim (Bool-cases (is_drafted drafted a)) [
      | inl e ↦ absurd (r.2 (meant.0 e))
      | inr e ↦ legal_from-Memᴰ drafted catalog a r.0 r.1 e
    ]
