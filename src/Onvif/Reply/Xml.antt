-- ===== src/Onvif/Reply/Xml.antt =====
-- Well-formed documents, for the replies of src/onvif/onvif.c: every element is closed by a tag of
-- its name, inside the element that it was opened in.
use mathlib.Core.Bool.{true≢false}
use yi_outdoor_1080p_ptz.Prelude.{
  ℕ, Bool, true, false, ◌≡◌, ◌≢◌, refl, ◌∙◌, sym, ap, arith, List, [], ◌∷◌, ◌++◌, ◌==◌,
  if◌then◌else◌,
}
use yi_outdoor_1080p_ptz.Text.{codes, same}
use yi_outdoor_1080p_ptz.Onvif.Reply.Digits.{AllDigits, digits-AllDigits}
use yi_outdoor_1080p_ptz.Onvif.Reply.Pieces.{Piece, lit, sub, print, decimal}

-- What a reader of the text is in, with the names of the open elements, the innermost first. A name
-- that is being read is reversed.
pub data Xml : Type 0 where
  content : List (List ℕ) → Xml
  opened : List (List ℕ) → Xml
  declaration : List (List ℕ) → Xml
  start_name : List (List ℕ) → List ℕ → Xml
  attributes : List (List ℕ) → List ℕ → Xml
  quoted : List (List ℕ) → List ℕ → Xml
  slash : List (List ℕ) → Xml
  end_name : List (List ℕ) → List ℕ → Xml
  broken : Xml

-- An end tag closes the innermost element.
abbrev pub close : List (List ℕ) → List ℕ → Xml
close [] n = broken
close (top ∷ os) n = if same n top then content os else broken

abbrev pub next : Xml → ℕ → Xml
next (content os) c = if c == 0x3C then opened os else content os
next (opened os) c =
    if c == 0x2F
    then end_name os []
    else if c == 0x3F
    then declaration os
    else start_name os (c ∷ [])
next (declaration os) c = if c == 0x3E then content os else declaration os
next (start_name os n) c =
    if c == 0x3E
    then content (n ∷ os)
    else if c == 0x2F
    then slash os
    else if c == 0x20
    then attributes os n
    else start_name os (c ∷ n)
next (attributes os n) c =
    if c == 0x3E
    then content (n ∷ os)
    else if c == 0x2F
    then slash os
    else if c == 0x22
    then quoted os n
    else attributes os n
next (quoted os n) c =
    if c == 0x22 then attributes os n else if c == 0x3C then broken else quoted os n
next (slash os) c = if c == 0x3E then content os else broken
next (end_name os n) c = if c == 0x3E then close os n else end_name os (c ∷ n)
next broken c = broken

unfoldable pub scan : Xml → List ℕ → Xml
scan x [] = x
scan x (c ∷ cs) = scan (next x c) cs

-- Nothing is open at the end.
abbrev pub IsDocument : List ℕ → Type 0
IsDocument t = scan (content []) t ≡ content []

-- A text that may stand inside an element: it closes what it opens.
abbrev pub IsInline : List ℕ → Type 0
IsInline t = (os : List (List ℕ)) → scan (content os) t ≡ content os

scan-append : (x : Xml) (s t : List ℕ) → scan x (s ++ t) ≡ scan (scan x s) t
unfolding scan
scan-append x [] t = refl
scan-append x (c ∷ s) t = scan-append (next x c) s t

pub IsInline-append : (s t : List ℕ) → IsInline s → IsInline t → IsInline (s ++ t)
IsInline-append s t u v os = scan-append (content os) s t ∙ rw (u os) (v os)

-- A text without `<` is one.
abbrev pub IsPlain : List ℕ → Type 0
IsPlain [] = Unit
IsPlain (c ∷ cs) = (c ≢ 0x3C) × IsPlain cs

pub IsPlain-IsInline : (t : List ℕ) → IsPlain t → IsInline t
unfolding scan
IsPlain-IsInline [] u os = refl
IsPlain-IsInline (c ∷ cs) (d, u) os = rw plain (IsPlain-IsInline cs u os)
  where
    plain : (c == 0x3C) ≡ false
    plain = ground arith

-- A number has digits only.
digits-IsPlain : (ds : List ℕ) → AllDigits ds → IsPlain ds
digits-IsPlain [] a = tt
digits-IsPlain (c ∷ cs) (d, a) = ((λ e. absurd (omega arith)), digits-IsPlain cs a)

pub decimal-IsInline : (n : ℕ) → IsInline (decimal n)
decimal-IsInline n =
    IsPlain-IsInline (decimal n) (digits-IsPlain (decimal n) (digits-AllDigits 10 n))

-- What is put in stands inside an element.
abbrev inside : Xml → Xml
inside (content os) = content os
inside (opened os) = broken
inside (declaration os) = broken
inside (start_name os n) = broken
inside (attributes os n) = broken
inside (quoted os n) = broken
inside (slash os) = broken
inside (end_name os n) = broken
inside broken = broken

-- The scan of a format: what is put in is passed over.
unfoldable pub scan_format : Xml → List Piece → Xml
scan_format x [] = x
scan_format x (lit s ∷ ps) = scan_format (scan x (codes s)) ps
scan_format x (sub t ∷ ps) = scan_format (inside x) ps

abbrev pub AllInline : List Piece → Type 0
AllInline [] = Unit
AllInline (lit s ∷ ps) = AllInline ps
AllInline (sub t ∷ ps) = IsInline t × AllInline ps

scan_format_broken : (ps : List Piece) → scan_format broken ps ≡ broken
unfolding scan_format scan
scan_format_broken [] = refl
scan_format_broken (lit s ∷ ps) =
    ap (λ x. scan_format x ps) (scan_broken (codes s)) ∙ scan_format_broken ps
  where
    scan_broken : (t : List ℕ) → scan broken t ≡ broken
    scan_broken [] = refl
    scan_broken (c ∷ cs) = scan_broken cs
scan_format_broken (sub t ∷ ps) = scan_format_broken ps

abbrev is_broken : Xml → Bool
is_broken broken = true
is_broken (content os) = false
is_broken (opened os) = false
is_broken (declaration os) = false
is_broken (start_name os n) = false
is_broken (attributes os n) = false
is_broken (quoted os n) = false
is_broken (slash os) = false
is_broken (end_name os n) = false

broken-ne-content : (ps : List Piece) (os : List (List ℕ)) → scan_format broken ps ≢ content os
broken-ne-content ps os e = true≢false (ap is_broken (sym (scan_format_broken ps) ∙ e))

-- A format whose scan ends with nothing open prints a document, if what is put in is inline.
pub scan_format_sound :
    (x : Xml) (ps : List Piece) (os : List (List ℕ))
    → AllInline ps
    → scan_format x ps ≡ content os
    → scan x (print ps) ≡ content os
unfolding scan_format print scan
scan_format_sound x [] os a e = e
scan_format_sound x (lit s ∷ ps) os a e =
    scan-append x (codes s) (print ps) ∙ scan_format_sound (scan x (codes s)) ps os a e
scan_format_sound (content now) (sub t ∷ ps) os (u, a) e =
    scan-append (content now) t (print ps) ∙ rw (u now) (scan_format_sound (content now) ps os a e)
scan_format_sound (opened now) (sub t ∷ ps) os a e = absurd (broken-ne-content ps os e)
scan_format_sound (declaration now) (sub t ∷ ps) os a e = absurd (broken-ne-content ps os e)
scan_format_sound (start_name now n) (sub t ∷ ps) os a e = absurd (broken-ne-content ps os e)
scan_format_sound (attributes now n) (sub t ∷ ps) os a e = absurd (broken-ne-content ps os e)
scan_format_sound (quoted now n) (sub t ∷ ps) os a e = absurd (broken-ne-content ps os e)
scan_format_sound (slash now) (sub t ∷ ps) os a e = absurd (broken-ne-content ps os e)
scan_format_sound (end_name now n) (sub t ∷ ps) os a e = absurd (broken-ne-content ps os e)
scan_format_sound broken (sub t ∷ ps) os a e = absurd (broken-ne-content ps os e)
