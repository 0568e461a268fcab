-- ===== src/Tests/Parser.antt =====
-- The parser: go-ingestion/internal/worker/parser.
use mathlib.Core.List.{Memᴰ}
use dota2_analysis.Base.{
  All, sym, subst, ℕ, ◌<◌, ◌≡◌, refl, ◌⊎◌, inl, inr, true, false, List, [], ◌∷◌, none, some, ℤ, pos,
  negsuc, arith, lookup, insert, ℕ_discrete,
}
use dota2_analysis.Base.Text.{Text, Text-discrete, codes, decimal}
use dota2_analysis.Handlers.{HandlerError, json_syntax, outcome_of}
use dota2_analysis.Payload as Payload
use dota2_analysis.Queue.{Message}
use dota2_analysis.Decode.{
  Json, RawMatch, RawPlayer, safe_idx, safe_idx_small, int16, cap_int16, capped_idx, deref,
}
use dota2_analysis.Decode.Series.{row, is_nil, expand_timeseries}
use dota2_analysis.Decode.Root.{decode_match, validate, check_match, on_unmarshalled, build_match}
use dota2_analysis.Decode.Domain.{Match}
use dota2_analysis.Decode.WellFormed.{IsWellFormed, decode_match-IsWellFormed}
use dota2_analysis.Decode.Timeline.{IsInRange, timelines, expand_timeseries_lem}
use dota2_analysis.Parser.{ingested, Ingester, State, handle_message, parse_handler}
use dota2_analysis.Parser.Outcomes.{task_verdict, parse_handler-outcome}
use dota2_analysis.Parser.Safety.{handle_message-safe}
use dota2_analysis.Parser.Lost.{payloads_at, Reads, Replaced}
use dota2_analysis.Parser.Stored.{MatchDb, ingester_of, natural, is_known, handle_message-Replaced}

-- A player of the dire whose last hits leave the range of an int16 in the third minute.
abbrev pub player : RawPlayer
player = record {
  player_slot = pos 130;
  account_id = some (pos 77);
  hero_id = pos 8;
  hero_variant = none;
  is_radiant = some false;
  win = some (pos 1);
  patch_id = none;
  lobby_type = none;
  game_mode = none;
  rank_tier = none;
  kills = pos 2;
  deaths = pos 3;
  assists = pos 4;
  level = some (pos 18);
  net_worth = none;
  gold = none;
  gold_spent = none;
  gold_per_min = none;
  xp_per_min = none;
  last_hits = none;
  denies = none;
  hero_damage = none;
  tower_damage = none;
  hero_healing = none;
  item_0 = none;
  item_1 = none;
  item_2 = none;
  item_3 = none;
  item_4 = none;
  item_5 = none;
  item_neutral = none;
  backpack_0 = none;
  backpack_1 = none;
  backpack_2 = none;
  backpack_3 = none;
  lane = none;
  lane_role = none;
  is_roaming = none;
  party_id = none;
  party_size = none;
  stuns = none;
  obs_placed = none;
  sen_placed = none;
  creeps_stacked = none;
  camps_stacked = none;
  rune_pickups = none;
  firstblood_claimed = some (pos 0);
  teamfight_participation = none;
  towers_killed = none;
  roshans_killed = none;
  observers_placed = none;
  leaver_status = none;
  gold_t = pos 600 ∷ pos 900 ∷ [];
  xp_t = pos 0 ∷ [];
  lh_t = pos 1 ∷ pos 2 ∷ pos 40000 ∷ [];
  dn_t = [];
  times = pos 0 ∷ pos 60 ∷ pos 120 ∷ pos 180 ∷ [];
  throw_gold = none;
  comeback_gold = none;
  loss_gold = none;
  win_gold = none;
  damage = none;
  damage_taken = none;
  damage_inflictor = none;
  damage_inflictor_received = none;
  damage_targets = none;
  hero_hits = none;
  max_hero_hit = none;
  ability_uses = none;
  ability_targets = none;
  ability_upgrades_arr = none;
  item_uses = none;
  gold_reasons = none;
  xp_reasons = none;
  killed = none;
  killed_by = none;
  kill_streaks = none;
  multi_kills = none;
  life_state = none;
  lane_pos = none;
  obs = none;
  sen = none;
  actions = none;
  pings = none;
  runes = none;
  purchase = none;
  obs_log = none;
  sen_log = none;
  obs_left_log = none;
  sen_left_log = none;
  purchase_log = some (codes "[]");
  kills_log = none;
  buyback_log = none;
  runes_log = none;
  connection_log = none;
  permanent_buffs = none;
  neutral_tokens_log = none;
  neutral_item_history = none;
  additional_units = none;
  cosmetics = none;
  benchmarks = none;
  all_word_counts = none;
  my_word_counts = none;
}

abbrev pub raw : RawMatch
raw = record {
  match_id = pos 0;
  match_seq_num = none;
  start_time = pos 1700000000;
  duration = pos 1800;
  radiant_win = some false;
  tower_status_radiant = none;
  tower_status_dire = none;
  barracks_status_radiant = none;
  barracks_status_dire = none;
  radiant_score = none;
  dire_score = none;
  first_blood_time = none;
  lobby_type = none;
  game_mode = none;
  cluster = none;
  region = none;
  skill = none;
  engine = none;
  human_players = none;
  version = none;
  patch = none;
  positive_votes = none;
  negative_votes = none;
  league_id = none;
  series_id = none;
  series_type = none;
  radiant_team_id = none;
  dire_team_id = none;
  radiant_captain = none;
  dire_captain = none;
  replay_salt = none;
  replay_url = none;
  pauses = none;
  cosmetics = none;
  players = player ∷ [];
  picks_bans = (record { order = pos 0; is_pick = true; hero_id = pos 8; team = pos 1 }) ∷ [];
  draft_timings = [];
  objectives = [];
  chat = [];
  teamfights = [];
  radiant_gold_adv = [];
  radiant_xp_adv = [];
}

abbrev pub task_of : Text → HandlerError ⊎ ℤ
task_of [] = inl json_syntax
task_of (c ∷ cs) = inr (pos 5)

-- Every payload but the empty one is the task of match 5, and every blob is `raw`.
abbrev pub json : Json
json = record {
  task = task_of;
  whole_match = λ blob. inr raw;
  objective = λ blob. none;
  string = λ blob. none;
  int = λ blob. none;
}

abbrev pub blob : Text
blob = codes "{}"

last_hits_capped :
    (row player 2)
    ≡ some (record {
      player_slot = pos 130;
      minute = pos 2;
      hero_id = pos 8;
      account_id = pos 77;
      patch_id = pos 0;
      gold = pos 0;
      xp = pos 0;
      lh = pos 32767;
      dn = pos 0;
    })
unfolding row safe_idx safe_idx_small int16 cap_int16 capped_idx deref is_nil
last_hits_capped = refl

-- The value -40,000 is not capped, and wraps around.
low_value_wraps : cap_int16 (negsuc 39999) ≡ pos 25536
unfolding cap_int16 int16
low_value_wraps = refl

player-IsInRange : IsInRange player
player-IsInRange = (omega arith, (tt, (tt, (tt, tt))), tt)

expand_timeseries_lem_example :
    expand_timeseries (player ∷ player ∷ []) ≡ timelines (player ∷ player ∷ [])
expand_timeseries_lem_example =
    expand_timeseries_lem (player ∷ player ∷ []) (player-IsInRange, (player-IsInRange, tt))

abbrev pub decoded : Match
decoded = build_match json (pos 5) blob raw

decode_match-IsWellFormed_example : IsWellFormed decoded
unfolding decode_match on_unmarshalled check_match validate
decode_match-IsWellFormed_example = decode_match-IsWellFormed json (pos 5) blob decoded refl refl

abbrev msg : Message
msg = record { id = codes "1"; payload = codes "{}"; headers = [] }

-- An ingester that keeps the ids of its matches.
abbrev keeper : Ingester
keeper = record { World = List ℕ; ingest = λ m w. (ingested, natural m.match_id ∷ w) }

abbrev AllPositive : List ℕ → Type 0
AllPositive = All (λ id. 0 < id)

positive_kept :
    (m : Match) (w : List ℕ) → IsWellFormed m → AllPositive w → AllPositive (natural m.match_id ∷ w)
positive_kept m w good h =
    let (n, is_n, positive) = good.id in (subst (λ z. 0 < natural z) (sym is_n) positive, h)

-- The raw data of match 5 is stored at time 100.
abbrev store : Payload.Store
store = Payload.put 100 (codes "5") blob 60 Payload.new

abbrev begin : State (payloads_at 120) keeper
begin = record { store = store; world = []; failures = []; successes = 0; duplicates = 0 }

handle_message-safe_example :
    AllPositive (handle_message json (payloads_at 120) keeper msg begin).1.world
handle_message-safe_example =
    handle_message-safe json (payloads_at 120) keeper AllPositive positive_kept msg begin tt

match_ingested : (handle_message json (payloads_at 120) keeper msg begin).1.world ≡ 5 ∷ []
unfolding handle_message Payload.get lookup Payload.put insert Text-discrete decimal ℕ_discrete
match_ingested = refl

parse_handler-outcome_example :
    outcome_of (parse_handler json (payloads_at 120) keeper msg begin).0
    ≡ task_verdict json (payloads_at 120) keeper (inr (pos 5)) begin
parse_handler-outcome_example = parse_handler-outcome json (payloads_at 120) keeper msg begin

abbrev pub db : MatchDb
db = record {
  Repo = List ℕ;
  ingest_match = λ m r. (none, natural m.match_id ∷ r);
  IsStored = λ r id. Memᴰ id r;
}

nothing_known :
    (m : Match) (r : List ℕ)
    → is_known none ≡ true
    → Memᴰ (natural m.match_id) (natural m.match_id ∷ r)
nothing_known m r h = absurd (ground (arith, h))

abbrev at_start : State (payloads_at 120) (ingester_of db)
at_start = record {
  store = store;
  world = record { repo = []; dedup = none; failures = []; successes = 0 };
  failures = [];
  successes = 0;
  duplicates = 0;
}

readable : Reads 120 (ingester_of db) (codes "5") blob at_start
unfolding Payload.get lookup Payload.put insert Text-discrete ℕ_discrete
readable = refl

handle_message-Replaced_example :
    Reads 120
      (ingester_of db)
      (codes "5")
      blob
      (handle_message json (payloads_at 120) (ingester_of db) msg at_start).1
    ⊎ Replaced json 120
        (ingester_of db)
        (λ w m. Memᴰ (natural m.match_id) w.repo)
        (codes "5")
        blob
        (handle_message json (payloads_at 120) (ingester_of db) msg at_start)
handle_message-Replaced_example =
    handle_message-Replaced db (λ m r h. Memᴰ.head refl) nothing_known json 120 (codes "5") blob msg
      at_start readable
