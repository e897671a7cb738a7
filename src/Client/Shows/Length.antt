-- ===== src/Client/Shows/Length.antt =====
-- client.c: the line that `clientPrint` adds behind a Content-Length header.
use operating_systems_wet.Base.{
  ℕ, zero, suc, ◌+◌, ◌/◌, ◌%◌, ◌^◌, ◌<◌, ltb, ltb→lt, leb, ◌==◌, ◌≡◌, refl, sym, subst, ap, ap₂,
  ◌∙◌, Bool, true, false, not, ◌&&◌, Bool-cases, inl, inr, List, [], ◌∷◌, ◌++◌, append_assoc,
  append-nil, none, some, arith,
}
use operating_systems_wet.Base.Int.{pos}
use operating_systems_wet.Base.Bytes.{codes, is_space, starts_with}
use operating_systems_wet.Base.Format.{digits, print_nat, print_int, value, value-print_nat}
use operating_systems_wet.Rio.Read.{Rio, Event}
use operating_systems_wet.Rio.Read.Stream.{flow}
use operating_systems_wet.Rio.Line.Closed.{is_closed}
use operating_systems_wet.Server.Args.{digit_run, clamp_pos, to_int, strtol_sign}
use operating_systems_wet.Request.Headers.Spec.{is_header, all_headers, header_text}
use operating_systems_wet.Request.Answer.Pages.{length_header-is_header}
use operating_systems_wet.Client.{
  printed_all, behind, has_number, length_note, length_note_of, client_print,
}
use operating_systems_wet.Client.Shows.{shown_header, shown_headers, no_zero, client_print_lem}

-- A header line of an answer: one that gives the length of the body, or any other, without its
-- newline.
pub data Header : Type 0 where
  gives_length : (n : ℕ) → Header
  other : (w : List ℕ) → Header

abbrev pub line_of : Header → List ℕ
line_of (gives_length n) = codes "Content-Length: " ++ (print_nat n ++ (13 ∷ []))
line_of (other w) = w

-- The length is an `int`; another line fits the buffer, is not blank and gives no length.
abbrev pub is_good : Header → Bool
is_good (gives_length n) = ltb n (2 ^ 31)
is_good (other w) = is_header w && not (starts_with w (codes "Content-Length:"))

abbrev pub all_good : List Header → Bool
all_good [] = true
all_good (h ∷ hs) = is_good h && all_good hs

abbrev pub lines_of : List Header → List (List ℕ)
lines_of [] = []
lines_of (h ∷ hs) = line_of h ∷ lines_of hs

-- What the terminal shows of it.
abbrev pub on_terminal : Header → List ℕ
on_terminal (gives_length n) =
    codes "Header: Content-Length: "
    ++ (print_nat n ++ (13 ∷ b'\n' ∷ (codes "Length = " ++ (print_nat n ++ (b'\n' ∷ [])))))
on_terminal (other w) = codes "Header: " ++ (w ++ (b'\n' ∷ []))

abbrev pub all_on_terminal : List Header → List ℕ
all_on_terminal [] = []
all_on_terminal (h ∷ hs) = on_terminal h ++ all_on_terminal hs

abbrev is_digit : ℕ → Bool
is_digit c = leb b'0' c && leb c b'9'

abbrev is_digits : List ℕ → Bool
is_digits [] = true
is_digits (c ∷ s) = is_digit c && is_digits s

is_digits-append :
    (s : List ℕ) (c : ℕ) → is_digits s ≡ true → is_digit c ≡ true → is_digits (s ++ (c ∷ [])) ≡ true
is_digits-append [] c h d = rw d refl
is_digits-append (e ∷ s) c h d = ground (arith, is_digits-append s c)

is_digits-digits : (fuel n : ℕ) → is_digits (digits fuel n) ≡ true
unfolding digits
is_digits-digits zero n = refl
is_digits-digits (suc fuel) n = elim (Bool-cases (ltb n 10)) [
  | inl small ↦ rw small (ground arith)
  | inr large ↦
      rw large
        (is_digits-append (digits fuel (n / 10)) _ (is_digits-digits fuel (n / 10)) (ground arith))
]

-- A number starts with a digit.
starts : (s : List ℕ) (c : ℕ) → (d : ℕ) × (ds : List ℕ) × (s ++ (c ∷ []) ≡ d ∷ ds)
starts [] c = (c, [], refl)
starts (e ∷ s) c = (e, s ++ (c ∷ []), refl)

digits-starts : (fuel n : ℕ) → (d : ℕ) × (ds : List ℕ) × (digits (suc fuel) n ≡ d ∷ ds)
unfolding digits
digits-starts fuel n = elim (Bool-cases (ltb n 10)) [
  | inl small ↦ (b'0' + n, [], rw small refl)
  | inr large ↦
      let (d, ds, e) = starts (digits fuel (n / 10)) (b'0' + n % 10) in (d, ds, rw large e)
]

digit_run-digits : (s rest : List ℕ) → is_digits s ≡ true → digit_run (s ++ (13 ∷ rest)) ≡ s
digit_run-digits [] rest h = refl
digit_run-digits (c ∷ s) rest h = ground (arith, digit_run-digits s rest)

signs :
    (d : ℕ) (s : List ℕ)
    → (d == b'-') ≡ false
    → (d == b'+') ≡ false
    → strtol_sign (d ∷ s) ≡ clamp_pos (value 0 (digit_run (d ∷ s)))
signs d s m p = rw (m, p) refl

in_int : (n : ℕ) → n < 2 ^ 31 → to_int (clamp_pos n) ≡ pos n
in_int n h = ground arith

printed :
    (n : ℕ)
    → codes "Length = " ++ (print_int (pos n) ++ (b'\n' ∷ []))
      ≡ codes "Length = " ++ (print_nat n ++ (b'\n' ∷ []))
unfolding print_int
printed n = refl

-- `sscanf` reads back a number that is printed behind a space.
reads_number :
    (n d : ℕ) (ds rest : List ℕ)
    → n < 2 ^ 31
    → print_nat n ≡ d ∷ ds
    → is_digits (d ∷ ds) ≡ true
    → length_note_of (some (b' ' ∷ (d ∷ ds) ++ (13 ∷ rest)))
      ≡ codes "Length = " ++ (print_nat n ++ (b'\n' ∷ []))
reads_number n d ds rest small e h =
    let shown : is_space d ≡ false = ground arith in
    let numbered : has_number (d ∷ (ds ++ (13 ∷ rest))) ≡ true = ground arith in
    rw (shown, numbered)
      (ap (λ z. codes "Length = " ++ (print_int z ++ (b'\n' ∷ [])))
          (ap to_int (
              signs d (ds ++ (13 ∷ rest)) (ground arith) (ground arith)
              ∙ ap (λ s. clamp_pos (value 0 s)) (digit_run-digits (d ∷ ds) rest h ∙ sym e)
              ∙ ap clamp_pos (value-print_nat n))
            ∙ in_int n small)
        ∙ printed n)

abbrev no_newline : List ℕ → Bool
no_newline [] = true
no_newline (c ∷ s) = not (c == b'\n') && no_newline s

behind-none :
    (p w : List ℕ)
    → no_newline p ≡ true
    → starts_with w p ≡ false
    → behind p (w ++ (b'\n' ∷ [])) ≡ none
behind-none [] [] l h = absurd (cc)
behind-none [] (c ∷ w) l h = absurd (cc)
behind-none (b ∷ p) [] l h = ground arith
behind-none (b ∷ p) (c ∷ w) l h = ground (arith, behind-none p w)

note_of_length :
    (n : ℕ)
    → n < 2 ^ 31
    → length_note (line_of (gives_length n) ++ (b'\n' ∷ []))
      ≡ codes "Length = " ++ (print_nat n ++ (b'\n' ∷ []))
unfolding print_nat
note_of_length n small =
    let (d, ds, e) = digits-starts n n in
    ap (λ l. length_note_of (some (b' ' ∷ l)))
      (append_assoc (print_nat n) (13 ∷ []) (b'\n' ∷ []) ∙ ap (λ l. l ++ (13 ∷ b'\n' ∷ [])) e)
    ∙ reads_number n d ds (b'\n' ∷ []) small e
        (subst (λ l. is_digits l ≡ true) e (is_digits-digits (suc n) n))

shown_header-on_terminal :
    (h : Header) → is_good h ≡ true → shown_header (line_of h) ≡ on_terminal h
shown_header-on_terminal (gives_length n) g =
    ap (λ l. codes "Header: " ++ ((line_of (gives_length n) ++ (b'\n' ∷ [])) ++ l))
      (note_of_length n (ltb→lt n (2 ^ 31) g))
    ∙ simp append_assoc
shown_header-on_terminal (other w) g =
    ap (λ o. codes "Header: " ++ ((w ++ (b'\n' ∷ [])) ++ length_note_of o))
      (behind-none (codes "Content-Length:") w refl (ground arith))
    ∙ ap (λ l. codes "Header: " ++ l) (append-nil (w ++ (b'\n' ∷ [])))

shown_headers-all_on_terminal :
    (hs : List Header) → all_good hs ≡ true → shown_headers (lines_of hs) ≡ all_on_terminal hs
shown_headers-all_on_terminal [] g = refl
shown_headers-all_on_terminal (h ∷ hs) g =
    ap₂ (λ a b. a ++ b) (shown_header-on_terminal h (ground arith))
      (shown_headers-all_on_terminal hs (ground arith))

and-both : {a b : Bool} → a && b ≡ true → (a ≡ true) × (b ≡ true)
and-both {a} {b} h = ground arith

both : {a b : Bool} → a ≡ true → b ≡ true → a && b ≡ true
both {a} {b} h g = ground arith

one_more_header :
    (h : Header) (ws : List (List ℕ))
    → is_good h ≡ true
    → all_headers ws ≡ true
    → all_headers (line_of h ∷ ws) ≡ true
one_more_header (gives_length n) ws g rest = length_header-is_header n ws (ltb→lt n (2 ^ 31) g) rest
one_more_header (other w) ws g rest = both (and-both g).0 rest

all_headers-lines_of : (hs : List Header) → all_good hs ≡ true → all_headers (lines_of hs) ≡ true
all_headers-lines_of [] g = refl
all_headers-lines_of (h ∷ hs) g =
    let (one, more) = and-both g in
    one_more_header h (lines_of hs) one (all_headers-lines_of hs more)

-- On a connection that delivers header lines, a blank line and a body without zero bytes, in any pieces,
-- and then stays at its end, `clientPrint` shows each header line behind the word "Header:", then the
-- body as it is, and behind a line "Content-Length: N", and behind no other, a line "Length = N". The
-- lines fit the buffer, those that start with "Content-Length:" have that form, and N is an `int`.
pub client_print_headers :
    (fd : List Event) (hs : List Header) (body : List ℕ)
    → is_closed fd ≡ true
    → all_good hs ≡ true
    → no_zero body ≡ true
    → (flow fd).coming ≡ header_text (lines_of hs) body
    → (rp' : Rio) × (client_print fd ≡ some (printed_all (all_on_terminal hs ++ body) rp'))
client_print_headers fd hs body closed good zeros same =
    let (rp', e) =
      client_print_lem fd (lines_of hs) body closed (all_headers-lines_of hs good) zeros same in
    (rp', e ∙ ap (λ l. some (printed_all (l ++ body) rp')) (shown_headers-all_on_terminal hs good))
