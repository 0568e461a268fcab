-- ===== src/Decode/Events.antt =====
-- go-ingestion/internal/worker/parser/decode_events.go, and the rows of a draft in decode_draft.go.
use dota2_analysis.Base.{Bool, List, [], ◌∷◌, Option, none, some, map, if◌then◌else◌, ℤ}
use dota2_analysis.Base.Numbers.{itoa}
use dota2_analysis.Base.Text.{Text, Text-discrete, codes}
use dota2_analysis.Decode.{
  RawObjective, RawChat, RawTeamfight, RawPickBan, RawDraftTiming, Json, deref, deref_str,
}

pub record Objective : Type 0 where
  pub time : ℤ
  pub kind : Text
  pub slot : ℤ
  pub player_slot : ℤ
  pub team : ℤ
  pub key : Text
  pub value : ℤ
  pub unit : Text
  pub raw : Text

pub record Chat : Type 0 where
  pub time : ℤ
  pub kind : Text
  pub player_slot : ℤ
  pub unit : Text
  pub key : Text

pub record Teamfight : Type 0 where
  pub end_time : ℤ
  pub last_death : ℤ
  pub deaths : ℤ
  pub players : Option Text

pub record DraftTiming : Type 0 where
  pub order : ℤ
  pub pick : Bool
  pub active_team : ℤ
  pub hero_id : ℤ
  pub player_slot : ℤ
  pub extra_time : ℤ
  pub total_time_taken : ℤ

-- `len(raw) == 0 || string(raw) == "null"`
unfoldable pub is_null_text : Text → Bool
is_null_text [] = Bool.true
is_null_text (c ∷ cs) = elim (Text-discrete (c ∷ cs) (codes "null")) [
  | yes _ ↦ Bool.true
  | no _ ↦ Bool.false
]

unfoldable pub or_int : Option Text → Option ℤ → Option Text
unfolding itoa
or_int (some s) n = some s
or_int none (some n) = some (itoa n)
or_int none none = none

unfoldable pub objective_key_as_string : Json → Option Text → Option Text
unfolding is_null_text or_int
objective_key_as_string json none = none
objective_key_as_string json (some raw) =
    if is_null_text raw then none else or_int (json.string raw) (json.int raw)

unfoldable pub convert_objective : Json → Text → RawObjective → Objective
unfolding objective_key_as_string deref deref_str
convert_objective json raw o = record {
  time = o.time;
  kind = o.kind;
  slot = deref o.slot;
  player_slot = deref o.player_slot;
  team = deref o.team;
  key = deref_str (objective_key_as_string json o.key);
  value = deref o.value;
  unit = deref_str o.unit;
  raw = raw;
}

unfoldable pub cons_objective : Json → Text → Option RawObjective → List Objective → List Objective
unfolding convert_objective
cons_objective json raw none rows = rows
cons_objective json raw (some o) rows = convert_objective json raw o ∷ rows

-- An objective that cannot be decoded is skipped.
unfoldable pub decode_objectives : Json → List Text → List Objective
unfolding cons_objective
decode_objectives json [] = []
decode_objectives json (raw ∷ raws) =
    cons_objective json raw (json.objective raw) (decode_objectives json raws)

unfoldable pub decode_chat : List RawChat → List Chat
unfolding deref deref_str
decode_chat = map (λ c. record {
  time = c.time;
  kind = deref_str c.kind;
  player_slot = deref c.player_slot;
  unit = deref_str c.unit;
  key = deref_str c.key;
})

unfoldable pub decode_teamfights : List RawTeamfight → List Teamfight
unfolding deref
decode_teamfights = map (λ t. record {
  end_time = t.end;
  last_death = deref t.last_death;
  deaths = deref t.deaths;
  players = t.players;
})

unfoldable pub decode_advantages : (gold xp : List ℤ) → Option (List ℤ × List ℤ)
decode_advantages [] [] = none
decode_advantages gold xp = some (gold, xp)

-- `decodePicksBans` copies its rows.
unfoldable pub decode_picks_bans : List RawPickBan → List RawPickBan
decode_picks_bans =
    map (λ pb. record {
      order = pb.order;
      is_pick = pb.is_pick;
      hero_id = pb.hero_id;
      team = pb.team;
    })

unfoldable pub decode_draft_timings : List RawDraftTiming → List DraftTiming
unfolding deref
decode_draft_timings = map (λ d. record {
  order = d.order;
  pick = d.pick;
  active_team = deref d.active_team;
  hero_id = deref d.hero_id;
  player_slot = deref d.player_slot;
  extra_time = deref d.extra_time;
  total_time_taken = deref d.total_time_taken;
})
