-- ===== src/Onvif/Reply/Framing.antt =====
-- The header of a reply of src/onvif/onvif.c, read by `read_request` of the same file.
use yi_outdoor_1080p_ptz.Prelude.{
  ℕ, ◌+◌, ◌-◌, ◌<◌, ◌≡◌, refl, ap, ◌∙◌, arith, true, false, List, [], ◌∷◌, ◌++◌, append_assoc, some,
  ◌==◌, length, length-append, take, drop, take_all, min,
}
use yi_outdoor_1080p_ptz.Text.{codes, after_first, c_string}
use yi_outdoor_1080p_ptz.Onvif.Request.{
  Request, cap, find_hdr_end, note_header, content_length, note_length,
}
use yi_outdoor_1080p_ptz.Onvif.Reply.{reply_head, http_reply}
use yi_outdoor_1080p_ptz.Onvif.Reply.Pieces.{print, snprintf, decimal}
use yi_outdoor_1080p_ptz.Onvif.Reply.Digits.{AllDigits, digits-AllDigits, length-decimal}
use yi_outdoor_1080p_ptz.Onvif.Reply.Lengths.{length-print}

header_uncut : (n : ℕ) → snprintf 256 (reply_head n) ≡ print (reply_head n)
header_uncut n =
    take_all (print (reply_head n)) 255
      (omega (arith, length-print (reply_head n), length-decimal n))

-- The end of the header is not in a number.
find_hdr_end-digits :
    (ds t : List ℕ) (i : ℕ)
    → AllDigits ds
    → find_hdr_end (ds ++ t) i ≡ find_hdr_end t (i + length ds)
unfolding find_hdr_end
find_hdr_end-digits [] t i a = ap (find_hdr_end t) (omega arith)
find_hdr_end-digits (c ∷ cs) t i (d, a) =
    rw (find_hdr_end, other)
      (find_hdr_end-digits cs t (i + 1) a ∙ ap (find_hdr_end t) (omega arith))
  where
    other : (13 == c) ≡ false
    other = ground arith

c_string-digits : (ds t : List ℕ) → AllDigits ds → c_string (ds ++ t) ≡ ds ++ c_string t
unfolding c_string
c_string-digits [] t a = refl
c_string-digits (c ∷ cs) t (d, a) = rw other (ap (◌∷◌ c) (c_string-digits cs t a))
  where
    other : (c == 0) ≡ false
    other = ground arith

-- The header before and behind the number.
abbrev ahead : List ℕ
ahead =
    codes "HTTP/1.1 200 OK\r\n"
    ++ (codes "Content-Type: application/soap+xml; charset=utf-8\r\n" ++ codes "Content-Length: ")

abbrev behind : List ℕ
behind = codes "\r\nConnection: close\r\n\r\n"

abbrev header : ℕ → List ℕ
header n = ahead ++ (decimal n ++ behind)

header_parts : (n : ℕ) → print (reply_head n) ≡ header n
unfolding print
header_parts n = refl

length-header : (n : ℕ) → length (header n) ≡ 84 + length (decimal n) + 23
length-header n = omega (arith, length-append (decimal n) behind)

header_ends :
    (n : ℕ) (body : List ℕ)
    → find_hdr_end (header n ++ body) 0 ≡ some (84 + length (decimal n) + 19)
unfolding find_hdr_end
header_ends n body = rw (append_assoc (decimal n) behind body) (
    find_hdr_end-digits (decimal n) (behind ++ body) 84 (digits-AllDigits 10 n)
    ∙ ap some (omega arith))

no_zero : (n : ℕ) → c_string (header n) ≡ header n
unfolding c_string
no_zero n = ap (◌++◌ ahead) (c_string-digits (decimal n) behind (digits-AllDigits 10 n))

length_found :
    (n : ℕ) → after_first (codes "Content-Length:") (header n) ≡ some (32 ∷ (decimal n ++ behind))
unfolding after_first
length_found n = refl

drop-append_self : (s t : List ℕ) → drop (length s) (s ++ t) ≡ t
drop-append_self [] t = refl
drop-append_self (c ∷ s) t = drop-append_self s t

take-append_self : (s t : List ℕ) → take (length s) (s ++ t) ≡ s
take-append_self [] t = refl
take-append_self (c ∷ s) t = ap (◌∷◌ c) (take-append_self s t)

http_reply_parts : (body : List ℕ) → http_reply body ≡ header (length body) ++ body
unfolding http_reply
http_reply_parts body =
    ap (λ h. h ++ body) (header_uncut (length body) ∙ header_parts (length body))

-- A request of which `out` has come so far.
abbrev pub arrived : List ℕ → Request
arrived out = record { req = out; hdr_end = 0; have_cl = false; body_len = 0 }

-- The body starts where the header is found to end, and has the length found in it.
pub record IsFramed (body : List ℕ) (r : Request) : Type 0 where
  pub body_is : drop r.hdr_end r.req ≡ body
  pub body_len_is : r.body_len ≡ length body

module _ (strtoul : List ℕ → ℕ) where
  content_length-header :
      (r : Request) (n : ℕ)
      → take r.hdr_end r.req ≡ header n
      → content_length strtoul r ≡ min (strtoul (32 ∷ (decimal n ++ behind))) (cap - 1 - r.hdr_end)
  unfolding content_length
  content_length-header r n e = rw (content_length, e, no_zero n, length_found n) refl

  note_length_first :
      (r : Request)
      → 0 < r.hdr_end
      → r.have_cl ≡ false
      → note_length strtoul r ≡ record r { have_cl = true; body_len = content_length strtoul r }
  unfolding note_length
  note_length_first r p e = rw (some_end, e) refl
    where
      some_end : (r.hdr_end == 0) ≡ false
      some_end = ground arith

module _ (strtoul : List ℕ → ℕ) (body : List ℕ) (short : length body < 8192)
    (reads : (t : List ℕ) → strtoul (32 ∷ (decimal (length body) ++ (13 ∷ t))) ≡ length body) where
  headed : Request
  headed = record (arrived (header (length body) ++ body)) {
    hdr_end = length (header (length body));
  }

  header_noted : note_header (arrived (header (length body) ++ body)) ≡ headed
  unfolding note_header headed
  header_noted = rw (header_ends (length body) body) (
      ap (λ e. record (arrived (header (length body) ++ body)) { hdr_end = e })
        (omega (arith, length-header (length body))))

  length_counted : content_length strtoul headed ≡ length body
  unfolding headed
  length_counted =
      content_length-header strtoul headed (length body)
        (take-append_self (header (length body)) body)
      ∙ rw (reads _) (omega (arith, length-header (length body), length-decimal (length body)))

  -- What `read_request` notes of a reply that `http_reply` writes is where its body starts and how
  -- long it is. The body has fewer than 8192 bytes, and `strtoul` reads the number that was printed,
  -- behind a space and up to the end of the line.
  pub http_reply-IsFramed :
      IsFramed body (note_length strtoul (note_header (arrived (http_reply body))))
  unfolding headed
  http_reply-IsFramed =
      rw
        (
          http_reply_parts body,
          header_noted,
          note_length_first strtoul headed (omega (arith, length-header (length body))) refl,
        )
        record {
          body_is = drop-append_self (header (length body)) body;
          body_len_is = length_counted;
        }
