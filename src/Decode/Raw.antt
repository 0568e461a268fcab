-- ===== src/Decode/Raw.antt =====
-- go-ingestion/internal/worker/parser/decode.go: the JSON of a match as the parser reads it.
use dota2_analysis.Base.{ℕ, Bool, List, Option, ℤ}
use dota2_analysis.Base.Text.{Text}

-- A pointer that is nil, and raw JSON that is missing, are `none`. A float32, which is only copied, is
-- given by its bits.
pub record RawPlayer : Type 0 where
  pub player_slot : ℤ
  pub account_id : Option ℤ
  pub hero_id : ℤ
  pub hero_variant : Option ℤ
  pub is_radiant : Option Bool
  pub win : Option ℤ
  pub patch_id : Option ℤ
  pub lobby_type : Option ℤ
  pub game_mode : Option ℤ
  pub rank_tier : Option ℤ
  pub kills : ℤ
  pub deaths : ℤ
  pub assists : ℤ
  pub level : Option ℤ
  pub net_worth : Option ℤ
  pub gold : Option ℤ
  pub gold_spent : Option ℤ
  pub gold_per_min : Option ℤ
  pub xp_per_min : Option ℤ
  pub last_hits : Option ℤ
  pub denies : Option ℤ
  pub hero_damage : Option ℤ
  pub tower_damage : Option ℤ
  pub hero_healing : Option ℤ
  pub item_0 : Option ℤ
  pub item_1 : Option ℤ
  pub item_2 : Option ℤ
  pub item_3 : Option ℤ
  pub item_4 : Option ℤ
  pub item_5 : Option ℤ
  pub item_neutral : Option ℤ
  pub backpack_0 : Option ℤ
  pub backpack_1 : Option ℤ
  pub backpack_2 : Option ℤ
  pub backpack_3 : Option ℤ
  pub lane : Option ℤ
  pub lane_role : Option ℤ
  pub is_roaming : Option Bool
  pub party_id : Option ℤ
  pub party_size : Option ℤ
  pub stuns : Option ℕ
  pub obs_placed : Option ℤ
  pub sen_placed : Option ℤ
  pub creeps_stacked : Option ℤ
  pub camps_stacked : Option ℤ
  pub rune_pickups : Option ℤ
  pub firstblood_claimed : Option ℤ
  pub teamfight_participation : Option ℕ
  pub towers_killed : Option ℤ
  pub roshans_killed : Option ℤ
  pub observers_placed : Option ℤ
  pub leaver_status : Option ℤ
  pub gold_t : List ℤ
  pub xp_t : List ℤ
  pub lh_t : List ℤ
  pub dn_t : List ℤ
  pub times : List ℤ
  pub throw_gold : Option ℤ
  pub comeback_gold : Option ℤ
  pub loss_gold : Option ℤ
  pub win_gold : Option ℤ
  pub damage : Option Text
  pub damage_taken : Option Text
  pub damage_inflictor : Option Text
  pub damage_inflictor_received : Option Text
  pub damage_targets : Option Text
  pub hero_hits : Option Text
  pub max_hero_hit : Option Text
  pub ability_uses : Option Text
  pub ability_targets : Option Text
  pub ability_upgrades_arr : Option Text
  pub item_uses : Option Text
  pub gold_reasons : Option Text
  pub xp_reasons : Option Text
  pub killed : Option Text
  pub killed_by : Option Text
  pub kill_streaks : Option Text
  pub multi_kills : Option Text
  pub life_state : Option Text
  pub lane_pos : Option Text
  pub obs : Option Text
  pub sen : Option Text
  pub actions : Option Text
  pub pings : Option Text
  pub runes : Option Text
  pub purchase : Option Text
  pub obs_log : Option Text
  pub sen_log : Option Text
  pub obs_left_log : Option Text
  pub sen_left_log : Option Text
  pub purchase_log : Option Text
  pub kills_log : Option Text
  pub buyback_log : Option Text
  pub runes_log : Option Text
  pub connection_log : Option Text
  pub permanent_buffs : Option Text
  pub neutral_tokens_log : Option Text
  pub neutral_item_history : Option Text
  pub additional_units : Option Text
  pub cosmetics : Option Text
  pub benchmarks : Option Text
  pub all_word_counts : Option Text
  pub my_word_counts : Option Text

pub record RawPickBan : Type 0 where
  pub order : ℤ
  pub is_pick : Bool
  pub hero_id : ℤ
  pub team : ℤ

pub record RawDraftTiming : Type 0 where
  pub order : ℤ
  pub pick : Bool
  pub active_team : Option ℤ
  pub hero_id : Option ℤ
  pub player_slot : Option ℤ
  pub extra_time : Option ℤ
  pub total_time_taken : Option ℤ

-- `kind` is the field `Type` of the code.
pub record RawObjective : Type 0 where
  pub time : ℤ
  pub kind : Text
  pub slot : Option ℤ
  pub player_slot : Option ℤ
  pub team : Option ℤ
  pub key : Option Text
  pub value : Option ℤ
  pub unit : Option Text

pub record RawChat : Type 0 where
  pub time : ℤ
  pub kind : Option Text
  pub player_slot : Option ℤ
  pub unit : Option Text
  pub key : Option Text

pub record RawTeamfight : Type 0 where
  pub end : ℤ
  pub last_death : Option ℤ
  pub deaths : Option ℤ
  pub players : Option Text

pub record RawMatch : Type 0 where
  pub match_id : ℤ
  pub match_seq_num : Option ℤ
  pub start_time : ℤ
  pub duration : ℤ
  pub radiant_win : Option Bool
  pub tower_status_radiant : Option ℤ
  pub tower_status_dire : Option ℤ
  pub barracks_status_radiant : Option ℤ
  pub barracks_status_dire : Option ℤ
  pub radiant_score : Option ℤ
  pub dire_score : Option ℤ
  pub first_blood_time : Option ℤ
  pub lobby_type : Option ℤ
  pub game_mode : Option ℤ
  pub cluster : Option ℤ
  pub region : Option ℤ
  pub skill : Option ℤ
  pub engine : Option ℤ
  pub human_players : Option ℤ
  pub version : Option ℤ
  pub patch : Option ℤ
  pub positive_votes : Option ℤ
  pub negative_votes : Option ℤ
  pub league_id : Option ℤ
  pub series_id : Option ℤ
  pub series_type : Option ℤ
  pub radiant_team_id : Option ℤ
  pub dire_team_id : Option ℤ
  pub radiant_captain : Option ℤ
  pub dire_captain : Option ℤ
  pub replay_salt : Option ℤ
  pub replay_url : Option Text
  pub pauses : Option Text
  pub cosmetics : Option Text
  pub players : List RawPlayer
  pub picks_bans : List RawPickBan
  pub draft_timings : List RawDraftTiming
  pub objectives : List Text
  pub chat : List RawChat
  pub teamfights : List RawTeamfight
  pub radiant_gold_adv : List ℤ
  pub radiant_xp_adv : List ℤ
