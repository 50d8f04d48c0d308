-- ===== src/Server/Register.antt =====
-- pkg/server/register.go and heartbeat.go: the replies to the handshakes.
pub mod Escape
use cee_exporter.Common.{
  ℕ, Bool, true, false, Option, none, some, List, [], ◌∷◌, ◌++◌, ◌==◌, if◌then◌else◌, Bytes, codes,
}
use cee_exporter.Parser.Text.{trim_space, format_uint}
use cee_exporter.Parser.CheckEvent.Number.{is_empty}

pub record RegistrationConfig : Type 0 where
  pub friendly_name : Bytes
  pub guid : Bytes
  pub description : Bytes
  pub protocols : Bytes
  pub event_filter : Bytes
  pub version : Bytes

-- cmp.Or of two strings
unfoldable pub or_default : Bytes → Bytes → Bytes
or_default s fallback = if is_empty s then fallback else s

unfoldable pub registration_with_defaults : RegistrationConfig → RegistrationConfig
registration_with_defaults c = record {
  friendly_name = or_default c.friendly_name (codes "ceeexporter");
  guid = or_default c.guid (codes "bbefd339-b011-4c7a-89a7-1180d5d531c2");
  description = or_default c.description (codes "cee-exporter CEPA consumer");
  protocols = or_default c.protocols (codes "0,1");
  event_filter = or_default c.event_filter (codes "0xFFFFFFFF0000000000000000");
  version = or_default c.version (codes "1.2");
}

-- attrEscaper at one byte.
unfoldable pub escape_byte : ℕ → Bytes
escape_byte c =
    if c == b'&'
    then codes "&amp;"
    else if c == b'<'
    then codes "&lt;"
    else if c == b'>'
    then codes "&gt;"
    else if c == b'"'
    then codes "&quot;"
    else if c == 0x27
    then codes "&apos;"
    else c ∷ []

unfoldable pub escape_attr : Bytes → Bytes
escape_attr [] = []
escape_attr (c ∷ s) = escape_byte c ++ escape_attr s

-- strings.Split(s, ","): the parts, the first of them still to be given its head.
unfoldable pub split_from : Bytes → Bytes → List Bytes
split_from part [] = part ∷ []
split_from part (c ∷ s) = elim (c == b',') [
  | true ↦ part ∷ split_from [] s
  | false ↦ split_from (part ++ c ∷ []) s
]

-- The loop over the protocols.
unfoldable pub filters_of : Bytes → List Bytes → Bytes
filters_of event_filter [] = []
filters_of event_filter (proto ∷ rest) =
    let more = filters_of event_filter rest in
    if is_empty (trim_space proto)
    then more
    else codes "<Filter protocol=\""
      ++ escape_attr (trim_space proto)
      ++ codes "\"><EventTypeFilter value=\""
      ++ escape_attr event_filter
      ++ codes "\" /></Filter>"
      ++ more

unfoldable pub registration_response_xml : RegistrationConfig → Bytes
registration_response_xml c =
    codes "<RegisterResponse>"
    ++ codes "<EndPoint guid=\""
    ++ escape_attr c.guid
    ++ codes "\" friendlyName=\""
    ++ escape_attr c.friendly_name
    ++ codes "\" version=\""
    ++ escape_attr c.version
    ++ codes "\" desc=\""
    ++ escape_attr c.description
    ++ codes "\" />"
    ++ filters_of c.event_filter (split_from [] c.protocols)
    ++ codes "</RegisterResponse>"

-- heartbeatReply, with ceppServiceOnline and ntStatusSuccess
unfoldable pub heartbeat_reply : Bytes
heartbeat_reply = codes "hbStatus=0&ntStatus=0"
