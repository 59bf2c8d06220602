-- ===== src/Security/ClientIp.antt =====
-- server/src/security/client_ip.rs: the address that the limits go by. A header's value is a list of
-- bytes, which `HeaderValue::to_str` of the `http` crate, the argument `to_str`, reads as a text or
-- refuses; the address of the peer is given as a text.
pub mod Forged
use mistake_agent.Prelude.{
  ℕ, Option, none, some, Bool, true, false, List, [], ◌∷◌, ◌++◌, ◌==◌, if◌then◌else◌, map,
}
use mistake_agent.Relay.Text.{Text, codes, is_empty, trim}

abbrev pub comma : ℕ
comma = 44

abbrev pub first_piece : ℕ → List Text → List Text
first_piece c [] = (c ∷ []) ∷ []
first_piece c (piece ∷ pieces) = (c ∷ piece) ∷ pieces

-- `split(',')`.
abbrev pub split_commas : Text → List Text
split_commas [] = [] ∷ []
split_commas (c ∷ t) =
    let pieces = split_commas t in if c == comma then [] ∷ pieces else first_piece c pieces

abbrev pub or_this : Option Text → Text → Option Text
or_this (some last) piece = some last
or_this none piece = if is_empty piece then none else some piece

-- `rev().find(|entry| !entry.is_empty())`.
abbrev pub last_entry : List Text → Option Text
last_entry [] = none
last_entry (piece ∷ pieces) = or_this (last_entry pieces) piece

abbrev pub forwarded : Option Text → Option Text
forwarded none = none
forwarded (some value) = last_entry (map trim (split_commas value))

abbrev pub real_ip : Option Text → Option Text
real_ip none = none
real_ip (some value) = if is_empty (trim value) then none else some (trim value)

abbrev pub peer_ip : Option Text → Text
peer_ip none = codes "unknown"
peer_ip (some ip) = ip

abbrev pub or_peer : Option Text → Option Text → Text
or_peer none peer = peer_ip peer
or_peer (some ip) peer = ip

abbrev pub trusted_ip : Option Text → Option Text → Option Text → Text
trusted_ip (some last) x_real_ip peer = last
trusted_ip none x_real_ip peer = or_peer (real_ip x_real_ip) peer

-- `headers.get(..).and_then(|v| v.to_str().ok())`.
abbrev pub header_text : (List ℕ → Option Text) → Option (List ℕ) → Option Text
header_text to_str none = none
header_text to_str (some value) = to_str value

unfoldable pub client_ip :
    (List ℕ → Option Text) → Option (List ℕ) → Option (List ℕ) → Option Text → Bool → Text
client_ip to_str x_forwarded_for x_real_ip peer trust_proxy =
    if trust_proxy
    then trusted_ip (forwarded (header_text to_str x_forwarded_for)) (header_text to_str x_real_ip)
        peer
    else peer_ip peer
