-- ===== src/Security/ClientIp/Forged.antt =====
-- What a client can do to its address by the header (server/src/security/client_ip.rs).
use mistake_agent.Prelude.{
  ℕ, ◌≡◌, refl, Option, none, some, true, false, List, [], ◌∷◌, ◌++◌, ◌==◌, map, All, Bool-cases,
  inl, inr, ap, ◌∙◌,
}
use mistake_agent.Relay.Text.{Text, is_empty, trim}
use mistake_agent.Security.ClientIp.{
  comma, first_piece, split_commas, or_this, last_entry, peer_ip, trusted_ip, forwarded,
  header_text, client_ip,
}

-- A text without a comma is one piece.
split_commas-one : (t : Text) → All (λ c. (c == comma) ≡ false) t → split_commas t ≡ t ∷ []
split_commas-one [] h = refl
split_commas-one (c ∷ t) (f, h) = rw (f, split_commas-one t h) refl

abbrev end_of : List Text → Option Text
end_of pieces = last_entry (map trim pieces)

-- A first piece, and pieces behind it of which the last that is not empty is this one.
record EndsIn (pieces : List Text) (last : Text) : Type 0 where
  front : Text
  rest : List Text
  whole : pieces ≡ front ∷ rest
  found : end_of rest ≡ some last

-- Whatever is in front of the last comma, what follows it decides.
split_commas-EndsIn :
    (front t : Text)
    → All (λ c. (c == comma) ≡ false) t
    → is_empty (trim t) ≡ false
    → EndsIn (split_commas (front ++ comma ∷ t)) (trim t)
split_commas-EndsIn [] t h e = record {
  front = [];
  rest = t ∷ [];
  whole = ap (◌∷◌ []) (split_commas-one t h);
  found = rw e refl;
}
split_commas-EndsIn (c ∷ front) t h e =
    let tail = split_commas-EndsIn front t h e in
    elim (Bool-cases (c == comma)) [
      | inl y ↦ record {
        front = [];
        rest = tail.front ∷ tail.rest;
        whole = rw y (ap (◌∷◌ []) tail.whole);
        found = ap (λ o. or_this o (trim tail.front)) tail.found;
      }
      | inr n ↦ record {
        front = c ∷ tail.front;
        rest = tail.rest;
        whole = rw n (ap (first_piece c) tail.whole);
        found = tail.found;
      }
    ]

-- Behind a trusted proxy the address is what stands after the last comma of X-Forwarded-For, whatever
-- is in front of it and in the other header, as long as the whole value reads as a text; where it does
-- not, the address is X-Real-IP, if that reads as a text that is not blank. Without a proxy the
-- address is that of the peer, and no header has a say. What is after the last comma is not blank.
pub client_ip-forged :
    (to_str : List ℕ → Option Text) (value broken real : List ℕ) (forged t ip : Text)
    (x_forwarded_for x_real_ip : Option (List ℕ)) (peer : Option Text)
    → to_str value ≡ some (forged ++ comma ∷ t)
    → All (λ c. (c == comma) ≡ false) t
    → is_empty (trim t) ≡ false
    → to_str broken ≡ none
    → to_str real ≡ some ip
    → is_empty (trim ip) ≡ false
    → (client_ip to_str (some value) x_real_ip peer true ≡ trim t)
      × (client_ip to_str (some broken) (some real) peer true ≡ trim ip)
      × (client_ip to_str x_forwarded_for x_real_ip peer false ≡ peer_ip peer)
unfolding client_ip
client_ip-forged to_str value broken real forged t ip x_forwarded_for x_real_ip peer reads h e
      refused other shown =
    let ends = split_commas-EndsIn forged t h e in
    (
      ap (λ o. trusted_ip (forwarded o) (header_text to_str x_real_ip) peer) reads
          ∙ ap (λ o. trusted_ip o (header_text to_str x_real_ip) peer)
              (ap end_of ends.whole ∙ ap (λ o. or_this o (trim ends.front)) ends.found),
      rw (refused, other, shown) refl,
      refl,
    )
