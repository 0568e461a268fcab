-- ===== src/Decode/Domain.antt =====
-- go-core/domain/match.go: a match as the parser hands it to the ingester.
use dota2_analysis.Base.{Bool, List, Option, ℤ}
use dota2_analysis.Base.Text.{Text}
use dota2_analysis.Decode.{RawPickBan}
use dota2_analysis.Decode.Events.{Objective, Chat, Teamfight, DraftTiming}
use dota2_analysis.Decode.Players.{Player, PlayerDetail}
use dota2_analysis.Decode.Series.{TimeseriesRow}

pub record MatchIdentity : Type 0 where
  pub match_id : ℤ
  pub match_seq_num : ℤ
  pub start_time : ℤ
  pub duration : ℤ
  pub radiant_win : Option Bool

pub record MatchBuildings : Type 0 where
  pub tower_status_radiant : ℤ
  pub tower_status_dire : ℤ
  pub barracks_status_radiant : ℤ
  pub barracks_status_dire : ℤ
  pub radiant_score : ℤ
  pub dire_score : ℤ

pub record MatchLobby : Type 0 where
  pub first_blood_time : ℤ
  pub lobby_type : ℤ
  pub game_mode : ℤ
  pub cluster : ℤ
  pub region : ℤ
  pub skill : ℤ
  pub engine : ℤ
  pub human_players : ℤ
  pub version : ℤ

pub record MatchContext : Type 0 where
  pub patch_id : ℤ
  pub positive_votes : ℤ
  pub negative_votes : ℤ
  pub league_id : ℤ
  pub series_id : ℤ
  pub series_type : ℤ

pub record MatchTeams : Type 0 where
  pub radiant_team_id : ℤ
  pub dire_team_id : ℤ
  pub radiant_captain : ℤ
  pub dire_captain : ℤ

pub record MatchReplay : Type 0 where
  pub replay_salt : ℤ
  pub replay_url : Text
  pub pauses : Option Text

-- The structs that a `domain.Match` embeds are its first six fields.
pub record Match : Type 0 where
  pub identity : MatchIdentity
  pub open identity use *
  pub buildings : MatchBuildings
  pub lobby : MatchLobby
  pub context : MatchContext
  pub teams : MatchTeams
  pub replay : MatchReplay
  pub is_parsed : Bool
  pub players : List Player
  pub details : List PlayerDetail
  pub picks_bans : List RawPickBan
  pub draft_timings : List DraftTiming
  pub objectives : List Objective
  pub chat : List Chat
  pub teamfights : List Teamfight
  pub advantages : Option (List ℤ × List ℤ)
  pub cosmetics : Option Text
  pub timeseries : List TimeseriesRow
  pub raw : Text
