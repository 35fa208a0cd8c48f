-- ===== src/Onvif/Reply/Pieces.antt =====
-- The texts that `snprintf` builds in src/onvif/onvif.c: literals with texts put in, cut to the size
-- of the buffer.
use Prim.Native.String.{String}
use yi_outdoor_1080p_ptz.Prelude.{
  ℕ, zero, suc, ◌+◌, ◌-◌, ◌/◌, ◌%◌, List, [], ◌∷◌, ◌++◌, ltb, if◌then◌else◌, take,
}
use yi_outdoor_1080p_ptz.Text.{codes}

-- A part of a format, or the argument of a `%s` or a `%d`.
pub data Piece : Type 0 where
  lit : String → Piece
  sub : List ℕ → Piece

abbrev pub text_of : Piece → List ℕ
text_of (lit s) = codes s
text_of (sub t) = t

unfoldable pub print : List Piece → List ℕ
print [] = []
print (p ∷ ps) = text_of p ++ print ps

-- The text that `snprintf` leaves in a buffer of `size` bytes, without the final NUL.
abbrev pub snprintf : ℕ → List Piece → List ℕ
snprintf size ps = take (size - 1) (print ps)

-- `%d` of a number with at most `fuel` digits.
unfoldable pub digits : ℕ → ℕ → List ℕ
digits zero n = []
digits (suc fuel) n =
    let high = digits fuel (n / 10) in
    if ltb n 10 then (48 + n) ∷ [] else high ++ ((48 + n % 10) ∷ [])

-- An `int` has at most ten.
abbrev pub decimal : ℕ → List ℕ
decimal n = digits 10 n

abbrev pub env_head : List Piece
env_head =
    lit "<?xml version=\"1.0\" encoding=\"UTF-8\"?>"
    ∷ lit "<SOAP-ENV:Envelope"
    ∷ lit " xmlns:SOAP-ENV=\"http://www.w3.org/2003/05/soap-envelope\""
    ∷ lit " xmlns:SOAP-ENC=\"http://www.w3.org/2003/05/soap-encoding\""
    ∷ lit " xmlns:xsi=\"http://www.w3.org/2001/XMLSchema-instance\""
    ∷ lit " xmlns:xsd=\"http://www.w3.org/2001/XMLSchema\""
    ∷ lit " xmlns:tt=\"http://www.onvif.org/ver10/schema\""
    ∷ lit " xmlns:tds=\"http://www.onvif.org/ver10/device/wsdl\""
    ∷ lit " xmlns:trt=\"http://www.onvif.org/ver10/media/wsdl\""
    ∷ lit " xmlns:tptz=\"http://www.onvif.org/ver20/ptz/wsdl\">"
    ∷ lit "<SOAP-ENV:Body>"
    ∷ []

abbrev pub env_tail : List Piece
env_tail = lit "</SOAP-ENV:Body></SOAP-ENV:Envelope>" ∷ []

abbrev pub envelope : List Piece → List Piece
envelope ps = env_head ++ (ps ++ env_tail)
