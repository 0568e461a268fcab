-- ===== src/Decode/WellFormed.antt =====
-- What holds of a match that has been decoded and validated.
use dota2_analysis.Base.{
  ℕ, ◌≤◌, ◌<◌, ◌≡◌, refl, true, false, ◌⊎◌, inl, inr, List, [], ◌∷◌, Option, none, some, All, arith,
  Bool-cases, if◌then◌else◌, ℤ, pos, negsuc,
}
use dota2_analysis.Base.Text.{Text}
use dota2_analysis.Decode.{Json, RawMatch, RawPickBan}
use dota2_analysis.Handlers.{HandlerError}
use dota2_analysis.Decode.Players.{Player}
use dota2_analysis.Decode.Root.{
  is_positive, is_zero, is_negative, valid_player_slot, invalid_player, is_team, invalid_team,
  or_else, validate, build_match, check_match, on_unmarshalled, decode_match,
}
use dota2_analysis.Decode.Domain.{Match}

abbrev pub IsPositive : ℤ → Type 0
IsPositive z = (n : ℕ) × (z ≡ pos n) × (0 < n)

abbrev pub IsNatural : ℤ → Type 0
IsNatural z = (n : ℕ) × (z ≡ pos n)

-- A slot of the radiant (0 to 4) or of the dire (128 to 132), and a hero.
abbrev pub IsPlayer : Player → Type 0
IsPlayer p =
    ((s : ℕ) × (p.player_slot ≡ pos s) × ((s ≤ 4) ⊎ ((128 ≤ s) × (s ≤ 132)))) × IsNatural p.hero_id

abbrev pub IsPickBan : RawPickBan → Type 0
IsPickBan pb = (pb.team ≡ pos 0) ⊎ (pb.team ≡ pos 1)

pub record IsWellFormed (m : Match) : Type 0 where
  pub id : IsPositive m.match_id
  pub started : IsPositive m.start_time
  pub lasted : IsNatural m.duration
  pub player : All IsPlayer m.players
  pub pick_ban : All IsPickBan m.picks_bans

is_positive-IsPositive : (z : ℤ) → is_positive z ≡ true → IsPositive z
unfolding is_positive
is_positive-IsPositive (pos n) h = (n, refl, ground arith)
is_positive-IsPositive (negsuc n) h = absurd (ground (arith, h))

is_negative-IsNatural : (z : ℤ) → is_negative z ≡ false → IsNatural z
unfolding is_negative
is_negative-IsNatural (pos n) h = (n, refl)
is_negative-IsNatural (negsuc n) h = absurd (ground (arith, h))

valid_player_slot_lem :
    (z : ℤ)
    → valid_player_slot z ≡ true
    → (s : ℕ) × (z ≡ pos s) × ((s ≤ 4) ⊎ ((128 ≤ s) × (s ≤ 132)))
unfolding valid_player_slot
valid_player_slot_lem (pos s) h = (s, refl, ground arith)
valid_player_slot_lem (negsuc n) h = absurd (ground (arith, h))

is_team_lem : (pb : RawPickBan) → is_team pb.team ≡ true → IsPickBan pb
unfolding is_team
is_team_lem pb h = ground arith

invalid_player-IsPlayer : (ps : List Player) → invalid_player ps ≡ none → All IsPlayer ps
unfolding invalid_player
invalid_player-IsPlayer [] h = tt
invalid_player-IsPlayer (p ∷ ps) h = (
  (
    valid_player_slot_lem p.player_slot (ground arith),
    is_negative-IsNatural p.hero_id (ground arith),
  ),
  invalid_player-IsPlayer ps (ground arith),
)

invalid_team-IsPickBan : (rows : List RawPickBan) → invalid_team rows ≡ none → All IsPickBan rows
unfolding invalid_team
invalid_team-IsPickBan [] h = tt
invalid_team-IsPickBan (pb ∷ rows) h =
    (is_team_lem pb (ground arith), invalid_team-IsPickBan rows (ground arith))

or_else-none : (a b : Option Text) → or_else a b ≡ none → (a ≡ none) × (b ≡ none)
unfolding or_else
or_else-none none b h = (refl, h)
or_else-none (some e) b h = absurd (ground (arith, h))

check_match-lasted :
    (json : Json) (id : ℤ) (blob : Text) (rm : RawMatch) (m : Match)
    → check_match json id blob rm ≡ inr m
    → IsNatural m.duration
unfolding check_match build_match
check_match-lasted json id blob rm m h = elim (Bool-cases (is_negative rm.duration)) [
  | inl n ↦ absurd (ground (arith, h, n))
  | inr n ↦ let (d, e) = is_negative-IsNatural rm.duration n in (d, ground (arith, e, h, n))
]

decode_match-lasted :
    (json : Json) (id : ℤ) (blob : Text) (raw : HandlerError ⊎ RawMatch) (m : Match)
    → on_unmarshalled json id blob raw ≡ inr m
    → IsNatural m.duration
unfolding on_unmarshalled
decode_match-lasted json id blob (inl e) m h = absurd (ground (arith, h))
decode_match-lasted json id blob (inr rm) m h =
    check_match-lasted json (if is_zero rm.match_id then id else rm.match_id) blob rm m h

-- A match that is decoded from JSON without an error and passes the validation has a positive id and a
-- positive start time, its duration is not negative, the slot of each player is one of the ten of the
-- two teams, no hero of a player is negative, and each pick or ban is of one of the two teams.
pub decode_match-IsWellFormed :
    (json : Json) (id : ℤ) (blob : Text) (m : Match)
    → decode_match json id blob ≡ inr m
    → validate m ≡ none
    → IsWellFormed m
unfolding decode_match validate
decode_match-IsWellFormed json id blob m d v =
    let (players, teams) =
      or_else-none (invalid_player m.players) (invalid_team m.picks_bans) (ground arith) in
    record {
      id = is_positive-IsPositive m.match_id (ground arith);
      started = is_positive-IsPositive m.start_time (ground arith);
      lasted = decode_match-lasted json id blob (json.whole_match blob) m d;
      player = invalid_player-IsPlayer m.players players;
      pick_ban = invalid_team-IsPickBan m.picks_bans teams;
    }
