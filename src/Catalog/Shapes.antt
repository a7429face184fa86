-- ===== src/Catalog/Shapes.antt =====
-- The rows of rooms, live types and gift ranks that the queries of common/model give, and the shapes that
-- cmd/rpc/internal/svc/builders.go makes of them.
use apipro.Base.{Text, ℤ, Option}
use apipro.Rpc.Wire.{UserInfo}

pub record LiveRoom : Type 0 where
  pub uid : ℤ
  pub room_num : Text
  pub title : Text
  pub contact : Text
  pub cover : Text
  pub custom_cover : Text
  pub notice : Text
  pub detail : Text
  pub live_flv : Text
  pub live_m3u8 : Text
  pub live_status : ℤ
  pub room_status : ℤ
  pub live_type : ℤ
  pub live_type_parent : ℤ
  pub focus_count : ℤ
  pub fictitious_focus_count : ℤ
  pub visit_count : ℤ
  pub fictitious_visit_count : ℤ
  pub mark_type : ℤ
  pub assistant_uid : ℤ
  pub hd : ℤ
  pub stream_type : ℤ
  pub push_content : Text
  pub anchor_nick_name : Text
  pub anchor_icon : Text
  pub assistant_nick_name : Text
  pub assistant_icon : Text

pub record LiveType : Type 0 where
  pub live_type_id : ℤ
  pub parent_id : ℤ
  pub type_name : Text
  pub icon : Text
  pub status : ℤ
  pub sort : ℤ

pub record RoomGiftRank : Type 0 where
  pub room_num : Text
  pub uid : ℤ
  pub nick_name : Text
  pub icon : Text
  pub score : ℤ
  pub rank_no : ℤ

pub record AnchorResult : Type 0 where
  pub uid : ℤ
  pub nick_name : Text
  pub icon : Text
  pub cut_out_icon : Text
  pub room_num : Text
  pub notice : Text

pub record RoomResult : Type 0 where
  pub room_num : Text
  pub title : Text
  pub cover : Text
  pub cut_out_custom_cover_url : Text
  pub mark_type : ℤ
  pub live_status : ℤ
  pub hd : ℤ
  pub view_count : ℤ
  pub focus_count : ℤ
  pub anchor : AnchorResult

pub record LiveTypeJson : Type 0 where
  pub live_type_id : ℤ
  pub type_name : Text
  pub parent_id : ℤ
  pub icon : Text

pub record AssistantUserResult : Type 0 where
  pub uid : ℤ
  pub nick_name : Text
  pub icon : Text

pub record RoomDetailResult : Type 0 where
  pub room_num : Text
  pub title : Text
  pub contact : Text
  pub hd : ℤ
  pub cover : Text
  pub notice : Text
  pub detail : Text
  pub live_flv : Text
  pub live_m3u8 : Text
  pub live_status : ℤ
  pub view_count : ℤ
  pub focus_count : ℤ
  pub anchor : AnchorResult
  pub assistant_user : Option AssistantUserResult

pub record PlayStreamUrls : Type 0 where
  pub flv : Text
  pub hd_flv : Text
  pub m3u8 : Text
  pub hd_m3u8 : Text

pub record GiftRankItem : Type 0 where
  pub user : UserInfo
  pub contribution : ℤ
