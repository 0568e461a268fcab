-- ===== src/Decode/Root.antt =====
-- go-ingestion/internal/worker/parser/decode_match.go.
use dota2_analysis.Base.{
  Bool, true, false, not, ◌&&◌, ◌||◌, ◌⊎◌, inl, inr, List, [], ◌∷◌, ◌++◌, Option, none, some, ltb,
  leb, ◌==◌, if◌then◌else◌, ℤ, pos, negsuc,
}
use dota2_analysis.Base.Numbers.{itoa}
use dota2_analysis.Base.Text.{Text, codes}
use dota2_analysis.Handlers.{HandlerError, wrapped, other}
use dota2_analysis.Decode.{Json, RawMatch, RawPlayer, RawPickBan, deref, deref_str}
use dota2_analysis.Decode.Events.{
  is_null_text, decode_objectives, decode_chat, decode_teamfights, decode_advantages,
  decode_picks_bans, decode_draft_timings,
}
use dota2_analysis.Decode.Players.{Player, decode_players}
use dota2_analysis.Decode.Series.{expand_timeseries}
use dota2_analysis.Decode.Domain.{Match}

unfoldable pub is_positive : ℤ → Bool
is_positive (pos n) = ltb 0 n
is_positive (negsuc n) = false

unfoldable pub is_zero : ℤ → Bool
is_zero (pos n) = n == 0
is_zero (negsuc n) = false

unfoldable pub is_negative : ℤ → Bool
is_negative (pos n) = false
is_negative (negsuc n) = true

unfoldable pub has_values : List ℤ → Bool
has_values [] = false
has_values (v ∷ vs) = true

unfoldable pub has_logs : Option Text → Bool
unfolding is_null_text
has_logs none = false
has_logs (some log) = not (is_null_text log)

-- `isMatchParsed`
unfoldable pub is_match_parsed : List RawPlayer → Bool
unfolding has_logs has_values
is_match_parsed [] = false
is_match_parsed (p ∷ players) =
    has_logs p.purchase_log
    || (has_values p.gold_t || (has_values p.xp_t || is_match_parsed players))

-- `decodeMatchRoot` and what `decodeMatch` adds, for the id that it has settled on.
unfoldable pub build_match : Json → (id : ℤ) (blob : Text) → RawMatch → Match
unfolding deref deref_str is_match_parsed decode_players decode_picks_bans decode_draft_timings
    decode_objectives decode_chat decode_teamfights decode_advantages expand_timeseries
build_match json id blob rm = record {
  identity = record {
    match_id = id;
    match_seq_num = deref rm.match_seq_num;
    start_time = rm.start_time;
    duration = rm.duration;
    radiant_win = rm.radiant_win;
  };
  buildings = record {
    tower_status_radiant = deref rm.tower_status_radiant;
    tower_status_dire = deref rm.tower_status_dire;
    barracks_status_radiant = deref rm.barracks_status_radiant;
    barracks_status_dire = deref rm.barracks_status_dire;
    radiant_score = deref rm.radiant_score;
    dire_score = deref rm.dire_score;
  };
  lobby = record {
    first_blood_time = deref rm.first_blood_time;
    lobby_type = deref rm.lobby_type;
    game_mode = deref rm.game_mode;
    cluster = deref rm.cluster;
    region = deref rm.region;
    skill = deref rm.skill;
    engine = deref rm.engine;
    human_players = deref rm.human_players;
    version = deref rm.version;
  };
  context = record {
    patch_id = deref rm.patch;
    positive_votes = deref rm.positive_votes;
    negative_votes = deref rm.negative_votes;
    league_id = deref rm.league_id;
    series_id = deref rm.series_id;
    series_type = deref rm.series_type;
  };
  teams = record {
    radiant_team_id = deref rm.radiant_team_id;
    dire_team_id = deref rm.dire_team_id;
    radiant_captain = deref rm.radiant_captain;
    dire_captain = deref rm.dire_captain;
  };
  replay = record {
    replay_salt = deref rm.replay_salt;
    replay_url = deref_str rm.replay_url;
    pauses = rm.pauses;
  };
  is_parsed = is_match_parsed rm.players;
  players = (decode_players rm.players).0;
  details = (decode_players rm.players).1;
  picks_bans = decode_picks_bans rm.picks_bans;
  draft_timings = decode_draft_timings rm.draft_timings;
  objectives = decode_objectives json rm.objectives;
  chat = decode_chat rm.chat;
  teamfights = decode_teamfights rm.teamfights;
  advantages = decode_advantages rm.radiant_gold_adv rm.radiant_xp_adv;
  cosmetics = rm.cosmetics;
  timeseries = expand_timeseries rm.players;
  raw = blob;
}

unfoldable pub match_error : ℤ → Text → HandlerError
unfolding itoa
match_error id what = other (codes "match " ++ (itoa id ++ what))

unfoldable pub check_match : Json → (id : ℤ) (blob : Text) → RawMatch → HandlerError ⊎ Match
unfolding is_positive is_zero is_negative match_error build_match
check_match json id blob rm =
    if not (is_positive id)
    then inl (other (codes "invalid match_id: " ++ itoa id))
    else if is_zero rm.start_time
    then inl (match_error id (codes ": start_time missing"))
    else if is_negative rm.duration
    then inl (match_error id (codes ": negative duration"))
    else inr (build_match json id blob rm)

unfoldable pub on_unmarshalled :
    Json → (match_id : ℤ) (blob : Text) → HandlerError ⊎ RawMatch → HandlerError ⊎ Match
unfolding is_zero check_match
on_unmarshalled json match_id blob (inl e) = inl (wrapped e)
on_unmarshalled json match_id blob (inr rm) =
    check_match json (if is_zero rm.match_id then match_id else rm.match_id) blob rm

-- `decodeMatch`; the id of the task stands in for a missing one.
unfoldable pub decode_match : Json → (match_id : ℤ) (blob : Text) → HandlerError ⊎ Match
unfolding on_unmarshalled
decode_match json match_id blob = on_unmarshalled json match_id blob (json.whole_match blob)

unfoldable pub valid_player_slot : ℤ → Bool
valid_player_slot (pos s) = leb s 4 || (leb 128 s && leb s 132)
valid_player_slot (negsuc n) = false

unfoldable pub invalid_player : List Player → Option Text
unfolding valid_player_slot is_negative
invalid_player [] = none
invalid_player (p ∷ players) =
    let rest = invalid_player players in
    if not (valid_player_slot p.player_slot)
    then some (codes "invalid player_slot")
    else if is_negative p.hero_id
    then some (codes "invalid hero_id")
    else rest

unfoldable pub is_team : ℤ → Bool
is_team (pos n) = n == 0 || n == 1
is_team (negsuc n) = false

unfoldable pub invalid_team : List RawPickBan → Option Text
unfolding is_team
invalid_team [] = none
invalid_team (pb ∷ rows) =
    let rest = invalid_team rows in
    if not (is_team pb.team) then some (codes "picks_bans team must be 0|1") else rest

unfoldable pub or_else : Option Text → Option Text → Option Text
or_else (some e) next = some e
or_else none next = next

-- `validate`; of an error only its kind is kept.
unfoldable pub validate : Match → Option Text
unfolding is_positive invalid_player invalid_team or_else
validate m =
    if not (is_positive m.match_id)
    then some (codes "invalid match_id")
    else if not (is_positive m.start_time)
    then some (codes "start_time required")
    else or_else (invalid_player m.players) (invalid_team m.picks_bans)
