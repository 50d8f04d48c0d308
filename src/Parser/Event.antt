-- ===== src/Parser/Event.antt =====
-- CEPAEvent of pkg/parser/parser.go, the shapes that encoding/xml fills, and what the parsers call
-- outside the repository: encoding/xml, encoding/base64 and time.Parse.
use cee_exporter.Common.{ℕ, Option, List, Bytes, ℤ}

-- time.Time as seconds since 1970 and nanoseconds within the second.
pub record Time : Type 0 where
  pub sec : ℤ
  pub nsec : ℕ

pub record CepaEvent : Type 0 where
  pub event_type : Bytes
  pub file_path : Bytes
  pub username : Bytes
  pub domain : Bytes
  pub user_sid : Bytes
  pub logon_id : Bytes
  pub client_addr : Bytes
  pub protocol : Bytes
  pub server : Bytes
  pub timestamp : Time
  pub bytes_read : ℤ
  pub bytes_written : ℤ
  pub number_of_reads : ℤ
  pub number_of_writes : ℤ

pub record RawEvent : Type 0 where
  pub event_type : Bytes
  pub timestamp : Bytes
  pub file_path : Bytes
  pub user_sid : Bytes
  pub username : Bytes
  pub domain : Bytes
  pub logon_id : Bytes
  pub client_address : Bytes
  pub bytes_read : Bytes
  pub bytes_written : Bytes
  pub number_of_reads : Bytes
  pub number_of_writes : Bytes

pub record OneFsNfsEventArgs : Type 0 where
  pub event_type : Bytes
  pub desired_access : Bytes
  pub create_dispo : Bytes
  pub number_of_writes : Bytes
  pub number_of_reads : Bytes
  pub bytes_read : Bytes
  pub bytes_written : Bytes
  pub user_sid : Bytes
  pub client_ip : Bytes
  pub server_name : Bytes
  pub time_stamp : Bytes
  pub time_stamp_micro_seconds : Bytes

pub record OneFsRequest : Type 0 where
  pub action : Bytes
  pub source_ip : Bytes
  pub name : Bytes
  pub protocol : Bytes
  pub nfs : Option OneFsNfsEventArgs

pub record EventExt : Type 0 where
  pub user_id : Bytes
  pub owner_id : Bytes

pub record CheckEvent : Type 0 where
  pub event : Bytes
  pub path : Bytes
  pub flag : Bytes
  pub server : Bytes
  pub protocol : Bytes
  pub share : Bytes
  pub client_ip : Bytes
  pub server_ip : Bytes
  pub time_stamp : Bytes
  pub user_sid : Bytes
  pub owner_sid : Bytes
  pub file_size : Bytes
  pub new_name : Bytes
  pub desired_access : Bytes
  pub create_dispo : Bytes
  pub nt_status : Bytes
  pub relative_path : Bytes
  pub encoding_type : Bytes
  pub encoded_path : Bytes
  pub encoded_relative_path : Bytes
  pub ext : EventExt
  pub encoded_new_name : Bytes

pub record CheckEventRequest : Type 0 where
  pub count : Bytes
  pub events : List CheckEvent

-- The calls out of the repository; `none` is an error.
pub record Outside : Type 0 where
  -- xml.Unmarshal into a rawBatch, a rawSingle, an onefsRequest, a checkEventRequest, and into the
  -- anonymous structure of checkFileActionDecoded
  pub unmarshal_batch : Bytes → Option (List RawEvent)
  pub unmarshal_single : Bytes → Option RawEvent
  pub unmarshal_one_fs : Bytes → Option OneFsRequest
  pub unmarshal_check_event : Bytes → Option CheckEventRequest
  pub unmarshal_action : Bytes → Option Bytes
  -- base64.StdEncoding.DecodeString
  pub base64_decode : Bytes → Option Bytes
  -- time.Parse(layout, value)
  pub parse_time : Bytes → Bytes → Option Time
