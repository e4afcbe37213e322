-- ===== src/Websocket/Upgrade/Offers.antt =====
-- ec_netss_ws.h, DoUpgradeWebSocket: the extension that is taken of those that a request offers, and the
-- text of the answer, written out.
use eclib.Common.{
  ℕ, zero, suc, ◌≤◌, ◌<◌, ◌≡◌, ◌≢◌, ◌⊎◌, refl, ap, ◌∙◌, false, List, [], ◌∷◌, ◌++◌, length, All,
  Option, none, some, ◌==◌, if◌then◌else◌, arith, Bool-cases, inl, inr, length-append,
}
use eclib.Common.Texts.{codes}
use eclib.Strings.{c_str}
use eclib.Http.{ieq}
use eclib.Http.Package.{Package, get_head_filed}
use eclib.Http.Fields.{Next, strnext}
use eclib.Http.Fields.Lists.{joined}
use eclib.Http.Fields.Words.{
  IsWordByte, strnext-word, strnext-last, strnext-space, strnext-nil, comma-is_split,
  space-is_split,
}
use eclib.Websocket.Upgrade.{
  extension, extension_of, first_of, extension_loop, negotiated, switch_text, protocol_line,
  host_line, text_of,
}

-- A word of an offer has no separator, blank, line end or zero, and less than 64 bytes.
pub record IsOffer (w : List ℕ) : Type 0 where
  pub bytes : All (IsWordByte (codes ";,") 64) w
  pub text : All (λ c. c ≢ 0) w
  pub some_byte : 0 < length w
  pub short : length w < 64

-- The first word that names an extension decides, in letters of either case: the number of the extension,
-- and the line that confirms it. Without such a word there is none.
abbrev pub chosen : List (List ℕ) → ℕ × List ℕ
chosen [] = (0, [])
chosen (w ∷ ws) =
    if ieq (codes "permessage-deflate") w
    then (
      1,
      codes
          "Sec-WebSocket-Extensions: permessage-deflate; server_no_context_takeover; client_no_context_takeover\r\n",
    )
    else if ieq (codes "x-webkit-deflate-frame") w
    then (2, codes "Sec-WebSocket-Extensions: x-webkit-deflate-frame; no_context_takeover\r\n")
    else chosen ws

extension_lem :
    (w : List ℕ) (ws : List (List ℕ)) (more : Option (ℕ × List ℕ))
    → more ≡ some (chosen ws)
    → extension_of (some w) more ≡ some (chosen (w ∷ ws))
unfolding extension_of first_of extension
extension_lem w ws more h = elim (Bool-cases (ieq (codes "permessage-deflate") w)) [
  | inl e ↦ rw e refl
  | inr e ↦ elim (Bool-cases (ieq (codes "x-webkit-deflate-frame") w)) [
    | inl d ↦ rw (e, d) refl
    | inr d ↦ rw (e, d) h
  ]
]

round_lem :
    (fuel : ℕ) (src w rest : List ℕ) (ws : List (List ℕ))
    → strnext (codes ";,") 64 src ≡ (some w, rest)
    → extension_loop fuel rest ≡ some (chosen ws)
    → extension_loop (suc fuel) src ≡ some (chosen (w ∷ ws))
unfolding extension_loop
round_lem fuel src w rest ws next more =
    ap (λ (n : Next). extension_of n.0 (extension_loop fuel n.1)) next
    ∙ extension_lem w ws (extension_loop fuel rest) more

end_lem : (fuel : ℕ) → extension_loop (suc fuel) [] ≡ some (chosen [])
unfolding extension_loop extension_of
end_lem fuel =
    ap (λ (n : Next). extension_of n.0 (extension_loop fuel n.1)) (strnext-nil (codes ";,") 64)

loop_lem :
    (ws : List (List ℕ)) (w src : List ℕ) (fuel : ℕ)
    → All IsOffer (w ∷ ws)
    → length (joined (w ∷ ws)) ≤ fuel
    → strnext (codes ";,") 64 src ≡ strnext (codes ";,") 64 (joined (w ∷ ws))
    → extension_loop (suc fuel) src ≡ some (chosen (w ∷ ws))
loop_lem ws [] src fuel h enough same = absurd (let one = h.0.some_byte in omega arith)
loop_lem [] (c ∷ w) src zero h enough same = absurd (omega arith)
loop_lem (v ∷ ws) (c ∷ w) src zero h enough same = absurd (omega arith)
loop_lem [] (c ∷ w) src (suc fuel) h enough same =
    round_lem (suc fuel) src (c ∷ w) [] []
      (same ∙ strnext-last (codes ";,") 64 w c h.0.bytes h.0.short) (end_lem fuel)
loop_lem (v ∷ ws) (c ∷ w) src (suc fuel) h enough same =
    let size = length-append (c ∷ w) (b',' ∷ b' ' ∷ joined (v ∷ ws)) in
    round_lem (suc fuel) src (c ∷ w) (b' ' ∷ joined (v ∷ ws)) (v ∷ ws)
      (same
        ∙ strnext-word (codes ";,") 64 w (b' ' ∷ joined (v ∷ ws)) c b',' h.0.bytes h.0.short
            comma-is_split)
      (loop_lem ws v (b' ' ∷ joined (v ∷ ws)) fuel h.1 (omega arith)
        (strnext-space (codes ";,") 64 (joined (v ∷ ws)) space-is_split))

c_str-whole : (s : List ℕ) → All (λ c. c ≢ 0) s → c_str s ≡ s
unfolding c_str
c_str-whole [] h = refl
c_str-whole (c ∷ s) h =
    let test : (c == 0) ≡ false = ground (arith, h.0) in
    rw test (ap (λ (l : List ℕ). c ∷ l) (c_str-whole s h.1))

All-append : (s t : List ℕ) → All (λ c. c ≢ 0) s → All (λ c. c ≢ 0) t → All (λ c. c ≢ 0) (s ++ t)
All-append [] t h k = k
All-append (c ∷ s) t h k = (h.0, All-append s t h.1 k)

joined-text : (ws : List (List ℕ)) → All IsOffer ws → All (λ c. c ≢ 0) (joined ws)
joined-text [] h = tt
joined-text (w ∷ []) h = h.0.text
joined-text (w ∷ v ∷ ws) h =
    All-append w (b',' ∷ b' ' ∷ joined (v ∷ ws)) h.0.text
      ((λ e. absurd omega arith), ((λ e. absurd omega arith), joined-text (v ∷ ws) h.1))

-- Of the words of the field Sec-WebSocket-Extensions the first that names an extension decides.
pub negotiated-joined :
    (ws : List (List ℕ)) → All IsOffer ws → negotiated (some (joined ws)) ≡ some (chosen ws)
unfolding negotiated c_str
negotiated-joined [] h = end_lem 0
negotiated-joined (w ∷ ws) h =
    let text = joined (w ∷ ws) in
    rw (c_str-whole text (joined-text (w ∷ ws) h))
      (loop_lem ws w text (length text) h (omega arith) refl)

-- The offers of a request: the words of its field, which fits 255 bytes, or none without the field.
abbrev pub Offers : Package → List (List ℕ) → Type 0
Offers p ws =
    (get_head_filed (codes "Sec-WebSocket-Extensions") 256 p ≡ none) × (ws ≡ [])
    ⊎ (get_head_filed (codes "Sec-WebSocket-Extensions") 256 p ≡ some (joined ws))

pub offers_lem :
    (p : Package) (ws : List (List ℕ))
    → All IsOffer ws
    → Offers p ws
    → negotiated (get_head_filed (codes "Sec-WebSocket-Extensions") 256 p) ≡ some (chosen ws)
unfolding negotiated
offers_lem p ws h (inl (without, no_words)) = rw (without, no_words) refl
offers_lem p ws h (inr field) = rw field (negotiated-joined ws h)

-- A line of the answer; an empty value of the protocol has none.
abbrev protocol_text : List ℕ → List ℕ
protocol_text [] = []
protocol_text (c ∷ v) = codes "Sec-WebSocket-Protocol: " ++ (c ∷ v) ++ codes "\r\n"

abbrev host_text : Option (List ℕ) → List ℕ
host_text none = []
host_text (some v) = codes "Host: " ++ c_str v ++ codes "\r\n"

-- The answer to a request with the key, the protocol and the host, where `line` confirms the extension.
abbrev pub answer_text : (List ℕ → List ℕ) → List ℕ → List ℕ → Option (List ℕ) → List ℕ → List ℕ
answer_text accept key protocol host line =
    codes "HTTP/1.1 101 Switching Protocols\r\nUpgrade: websocket\r\nConnection: Upgrade\r\n"
    ++ codes "Sec-WebSocket-Accept: "
    ++ accept (key ++ codes "258EAFA5-E914-47DA-95CA-C5AB0DC85B11")
    ++ codes "\r\n"
    ++ protocol_text protocol
    ++ host_text host
    ++ line
    ++ codes "\r\n"

protocol_line_lem : (v : List ℕ) → protocol_line v ≡ protocol_text v
unfolding protocol_line
protocol_line_lem [] = refl
protocol_line_lem (c ∷ v) = refl

host_line_lem : (v : Option (List ℕ)) → host_line v ≡ host_text v
unfolding host_line
host_line_lem none = refl
host_line_lem (some v) = refl

pub switch_text_lem :
    (accept : List ℕ → List ℕ) (key line : List ℕ) (p : Package)
    → All (λ c. c ≢ 0) key
    → switch_text accept key p line
      ≡ answer_text accept key
          (text_of (get_head_filed (codes "Sec-WebSocket-Protocol") 128 p))
          (get_head_filed (codes "Host") 256 p)
          line
unfolding switch_text
switch_text_lem accept key line p text =
    rw
      (
        c_str-whole key text,
        protocol_line_lem (text_of (get_head_filed (codes "Sec-WebSocket-Protocol") 128 p)),
        host_line_lem (get_head_filed (codes "Host") 256 p),
      )
      refl
