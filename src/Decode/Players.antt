-- ===== src/Decode/Players.antt =====
-- go-ingestion/internal/worker/parser/decode_players.go.
use dota2_analysis.Base.{ℕ, Bool, false, List, Option, some, ◌==◌, map, ℤ, pos}
use dota2_analysis.Base.Text.{Text}
use dota2_analysis.Decode.{RawPlayer, deref, deref_bool, deref_f32, dec_to_bool}

pub record Player : Type 0 where
  pub player_slot : ℤ
  pub account_id : ℤ
  pub hero_id : ℤ
  pub hero_variant : ℤ
  pub is_radiant : Bool
  pub win : Bool
  pub patch_id : ℤ
  pub lobby_type : ℤ
  pub game_mode : ℤ
  pub rank_tier : ℤ
  pub kills : ℤ
  pub deaths : ℤ
  pub assists : ℤ
  pub level : ℤ
  pub net_worth : ℤ
  pub gold : ℤ
  pub gold_spent : ℤ
  pub gold_per_min : ℤ
  pub xp_per_min : ℤ
  pub last_hits : ℤ
  pub denies : ℤ
  pub hero_damage : ℤ
  pub tower_damage : ℤ
  pub hero_healing : ℤ
  pub item_0 : ℤ
  pub item_1 : ℤ
  pub item_2 : ℤ
  pub item_3 : ℤ
  pub item_4 : ℤ
  pub item_5 : ℤ
  pub item_neutral : ℤ
  pub backpack_0 : ℤ
  pub backpack_1 : ℤ
  pub backpack_2 : ℤ
  pub backpack_3 : ℤ
  pub lane : ℤ
  pub lane_role : ℤ
  pub is_roaming : Bool
  pub party_id : ℤ
  pub party_size : ℤ
  pub stuns : ℕ
  pub obs_placed : ℤ
  pub sen_placed : ℤ
  pub creeps_stacked : ℤ
  pub camps_stacked : ℤ
  pub rune_pickups : ℤ
  pub firstblood_claimed : Bool
  pub teamfight_participation : ℕ
  pub towers_killed : ℤ
  pub roshans_killed : ℤ
  pub observers_placed : ℤ
  pub leaver_status : ℤ
  pub gold_t : List ℤ
  pub xp_t : List ℤ
  pub lh_t : List ℤ
  pub dn_t : List ℤ
  pub times : List ℤ
  pub throw_gold : ℤ
  pub comeback_gold : ℤ
  pub loss_gold : ℤ
  pub win_gold : ℤ

pub record PlayerDetail : Type 0 where
  pub player_slot : ℤ
  pub damage : Option Text
  pub damage_taken : Option Text
  pub damage_inflictor : Option Text
  pub damage_inflictor_received : Option Text
  pub damage_targets : Option Text
  pub hero_hits : Option Text
  pub max_hero_hit : Option Text
  pub ability_uses : Option Text
  pub ability_targets : Option Text
  pub ability_upgrades_arr : Option Text
  pub item_uses : Option Text
  pub gold_reasons : Option Text
  pub xp_reasons : Option Text
  pub killed : Option Text
  pub killed_by : Option Text
  pub kill_streaks : Option Text
  pub multi_kills : Option Text
  pub life_state : Option Text
  pub lane_pos : Option Text
  pub obs : Option Text
  pub sen : Option Text
  pub actions : Option Text
  pub pings : Option Text
  pub runes : Option Text
  pub purchase : Option Text
  pub obs_log : Option Text
  pub sen_log : Option Text
  pub obs_left_log : Option Text
  pub sen_left_log : Option Text
  pub purchase_log : Option Text
  pub kills_log : Option Text
  pub buyback_log : Option Text
  pub runes_log : Option Text
  pub connection_log : Option Text
  pub permanent_buffs : Option Text
  pub neutral_tokens_log : Option Text
  pub neutral_item_history : Option Text
  pub additional_units : Option Text
  pub cosmetics : Option Text
  pub benchmarks : Option Text
  pub all_word_counts : Option Text
  pub my_word_counts : Option Text

unfoldable pub is_one : Option ℤ → Bool
is_one (some (pos n)) = n == 1
is_one _ = false

-- A slice that is nil and an empty one are the same list.
unfoldable pub convert_player : RawPlayer → Player
unfolding is_one deref deref_bool deref_f32 dec_to_bool
convert_player rp = record {
  player_slot = rp.player_slot;
  account_id = deref rp.account_id;
  hero_id = rp.hero_id;
  hero_variant = deref rp.hero_variant;
  is_radiant = deref_bool rp.is_radiant;
  win = is_one rp.win;
  patch_id = deref rp.patch_id;
  lobby_type = deref rp.lobby_type;
  game_mode = deref rp.game_mode;
  rank_tier = deref rp.rank_tier;
  kills = rp.kills;
  deaths = rp.deaths;
  assists = rp.assists;
  level = deref rp.level;
  net_worth = deref rp.net_worth;
  gold = deref rp.gold;
  gold_spent = deref rp.gold_spent;
  gold_per_min = deref rp.gold_per_min;
  xp_per_min = deref rp.xp_per_min;
  last_hits = deref rp.last_hits;
  denies = deref rp.denies;
  hero_damage = deref rp.hero_damage;
  tower_damage = deref rp.tower_damage;
  hero_healing = deref rp.hero_healing;
  item_0 = deref rp.item_0;
  item_1 = deref rp.item_1;
  item_2 = deref rp.item_2;
  item_3 = deref rp.item_3;
  item_4 = deref rp.item_4;
  item_5 = deref rp.item_5;
  item_neutral = deref rp.item_neutral;
  backpack_0 = deref rp.backpack_0;
  backpack_1 = deref rp.backpack_1;
  backpack_2 = deref rp.backpack_2;
  backpack_3 = deref rp.backpack_3;
  lane = deref rp.lane;
  lane_role = deref rp.lane_role;
  is_roaming = deref_bool rp.is_roaming;
  party_id = deref rp.party_id;
  party_size = deref rp.party_size;
  stuns = deref_f32 rp.stuns;
  obs_placed = deref rp.obs_placed;
  sen_placed = deref rp.sen_placed;
  creeps_stacked = deref rp.creeps_stacked;
  camps_stacked = deref rp.camps_stacked;
  rune_pickups = deref rp.rune_pickups;
  firstblood_claimed = deref_bool (dec_to_bool rp.firstblood_claimed);
  teamfight_participation = deref_f32 rp.teamfight_participation;
  towers_killed = deref rp.towers_killed;
  roshans_killed = deref rp.roshans_killed;
  observers_placed = deref rp.observers_placed;
  leaver_status = deref rp.leaver_status;
  gold_t = rp.gold_t;
  xp_t = rp.xp_t;
  lh_t = rp.lh_t;
  dn_t = rp.dn_t;
  times = rp.times;
  throw_gold = deref rp.throw_gold;
  comeback_gold = deref rp.comeback_gold;
  loss_gold = deref rp.loss_gold;
  win_gold = deref rp.win_gold;
}

unfoldable pub convert_player_detail : RawPlayer → PlayerDetail
convert_player_detail rp = record {
  player_slot = rp.player_slot;
  damage = rp.damage;
  damage_taken = rp.damage_taken;
  damage_inflictor = rp.damage_inflictor;
  damage_inflictor_received = rp.damage_inflictor_received;
  damage_targets = rp.damage_targets;
  hero_hits = rp.hero_hits;
  max_hero_hit = rp.max_hero_hit;
  ability_uses = rp.ability_uses;
  ability_targets = rp.ability_targets;
  ability_upgrades_arr = rp.ability_upgrades_arr;
  item_uses = rp.item_uses;
  gold_reasons = rp.gold_reasons;
  xp_reasons = rp.xp_reasons;
  killed = rp.killed;
  killed_by = rp.killed_by;
  kill_streaks = rp.kill_streaks;
  multi_kills = rp.multi_kills;
  life_state = rp.life_state;
  lane_pos = rp.lane_pos;
  obs = rp.obs;
  sen = rp.sen;
  actions = rp.actions;
  pings = rp.pings;
  runes = rp.runes;
  purchase = rp.purchase;
  obs_log = rp.obs_log;
  sen_log = rp.sen_log;
  obs_left_log = rp.obs_left_log;
  sen_left_log = rp.sen_left_log;
  purchase_log = rp.purchase_log;
  kills_log = rp.kills_log;
  buyback_log = rp.buyback_log;
  runes_log = rp.runes_log;
  connection_log = rp.connection_log;
  permanent_buffs = rp.permanent_buffs;
  neutral_tokens_log = rp.neutral_tokens_log;
  neutral_item_history = rp.neutral_item_history;
  additional_units = rp.additional_units;
  cosmetics = rp.cosmetics;
  benchmarks = rp.benchmarks;
  all_word_counts = rp.all_word_counts;
  my_word_counts = rp.my_word_counts;
}

unfoldable pub decode_players : List RawPlayer → List Player × List PlayerDetail
unfolding convert_player convert_player_detail
decode_players raw = (map convert_player raw, map convert_player_detail raw)
