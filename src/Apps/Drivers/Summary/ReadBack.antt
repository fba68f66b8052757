-- ===== src/Apps/Drivers/Summary/ReadBack.antt =====
-- The driver reads from the summary of a subscriber what the subscriber has written.
use usn_hft_sim.Base.{
  ℕ, ◌<◌, ◌^◌, ◌≡◌, refl, sym, ap, ◌∙◌, arith, Bool, false, List, [], ◌∷◌, ◌++◌, ◌==◌,
  if◌then◌else◌,
}
use mathlib.Core.List.{append_assoc, append-nil}
use usn_hft_sim.Base.Ints.{pos}
use usn_hft_sim.Base.Text.{
  codes, is_space, atoi, strtoull, to_string, All, IsDigit, to_string-AreDigits, atoi-to_string,
  strtoull-to_string,
}
use usn_hft_sim.Apps.CommandLine.{Bytes}
use usn_hft_sim.Apps.Subscriber.Report.{Report, summary_line}
use usn_hft_sim.Apps.Drivers.Summary.{
  first_line, words, Taken, nothing_taken, take_words, read_summary,
}

-- A byte of a word: no space and no newline.
abbrev IsPlain : ℕ → Type 0
IsPlain c = 32 < c

digits-IsPlain : (s : Bytes) → All IsDigit s → All IsPlain s
digits-IsPlain [] v = tt
digits-IsPlain (c ∷ s) v = (omega arith, digits-IsPlain s v.1)

plain_is_no_space : (c : ℕ) → IsPlain c → is_space c ≡ false
plain_is_no_space c h = ground arith

words-plain :
    (s rest : Bytes) (b : ℕ) (word : Bytes)
    → All IsPlain s
    → words (s ++ rest) (b ∷ word) ≡ words rest ((b ∷ word) ++ s)
unfolding words
words-plain [] rest b word v = ap (λ (w : Bytes). words rest (b ∷ w)) (sym (append-nil word))
words-plain (c ∷ s) rest b word v = rw (plain_is_no_space c v.0) (
    words-plain s rest b (word ++ c ∷ []) v.1
    ∙ ap (λ (w : Bytes). words rest (b ∷ w)) (append_assoc word (c ∷ []) s))

first_line-plain : (s rest : Bytes) → All IsPlain s → first_line (s ++ rest) ≡ s ++ first_line rest
unfolding first_line
first_line-plain [] rest v = refl
first_line-plain (c ∷ s) rest v =
    let inside : (c == 10) ≡ false = ground arith in
    rw inside (ap (λ (l : Bytes). c ∷ l) (first_line-plain s rest v.1))

-- A field behind a space: the name with its `=`, and the number.
record Field : Type 0 where
  head : ℕ
  tail : Bytes
  number : ℕ

abbrev name_of : Field → Bytes
name_of f = f.head ∷ f.tail

abbrev AreFields : List Field → Type 0
AreFields [] = Unit
AreFields (f ∷ fs) = All IsPlain (name_of f) × AreFields fs

fields : List Field → Bytes → Bytes
fields [] rest = rest
fields (f ∷ fs) rest = (32 ∷ name_of f) ++ (to_string f.number ++ fields fs rest)

abbrev tokens : List Field → List Bytes
tokens [] = []
tokens (f ∷ fs) = (name_of f ++ to_string f.number) ∷ tokens fs

number-IsPlain : (n : ℕ) → All IsPlain (to_string n)
number-IsPlain n = digits-IsPlain (to_string n) (to_string-AreDigits n)

first_line-fields :
    (fs : List Field) → AreFields fs → first_line (fields fs (10 ∷ [])) ≡ fields fs []
unfolding fields first_line
first_line-fields [] v = refl
first_line-fields (f ∷ fs) v =
    ap (λ (l : Bytes). 32 ∷ l)
      (first_line-plain (name_of f) (to_string f.number ++ fields fs (10 ∷ [])) v.0
        ∙ ap (λ (l : Bytes). name_of f ++ l)
            (first_line-plain (to_string f.number) (fields fs (10 ∷ [])) (number-IsPlain f.number)
              ∙ ap (λ (l : Bytes). to_string f.number ++ l) (first_line-fields fs v.1)))

-- From the start of a word.
words_start :
    (c : ℕ) (s rest : Bytes) → IsPlain c → words (c ∷ s ++ rest) [] ≡ words (s ++ rest) (c ∷ [])
unfolding words
words_start c s rest h =
    ap (λ (b : Bool). words (s ++ rest) (if b then [] else c ∷ [])) (plain_is_no_space c h)

words_named :
    (c : ℕ) (s : Bytes) (n : ℕ) (rest : Bytes)
    → All IsPlain (c ∷ s)
    → words (c ∷ s ++ (to_string n ++ rest)) [] ≡ words rest ((c ∷ s) ++ to_string n)
words_named c s n rest v =
    words_start c s (to_string n ++ rest) v.0
    ∙ words-plain s (to_string n ++ rest) c [] v.1
    ∙ words-plain (to_string n) rest c s (number-IsPlain n)

words-fields :
    (fs : List Field) (b : ℕ) (word : Bytes)
    → AreFields fs
    → words (fields fs []) (b ∷ word) ≡ (b ∷ word) ∷ tokens fs
unfolding words fields
words-fields [] b word v = refl
words-fields (f ∷ fs) b word v =
    ap (λ (l : List Bytes). (b ∷ word) ∷ l)
      (words_named f.head f.tail f.number (fields fs []) v.0
        ∙ words-fields fs f.head (f.tail ++ to_string f.number) v.1)

-- The fields of a report behind its number.
abbrev later_fields : Report → List Field
later_fields r =
    record { head = b'r'; tail = codes "ecv_total="; number = r.recv_total }
    ∷ record { head = b'g'; tail = codes "aps="; number = r.gaps }
    ∷ record { head = b'r'; tail = codes "eorder_events="; number = r.reorder_events }
    ∷ record { head = b'm'; tail = codes "ax_reorder_depth="; number = r.max_reorder_depth }
    ∷ record { head = b'l'; tail = codes "atency_p50_us="; number = r.latency_p50_us }
    ∷ record { head = b'l'; tail = codes "atency_p99_us="; number = r.latency_p99_us }
    ∷ record { head = b'l'; tail = codes "atency_p999_us="; number = r.latency_p999_us }
    ∷ record { head = b'l'; tail = codes "atency_max_us="; number = r.latency_max_us }
    ∷ []

line_fields :
    (r : Report)
    → summary_line r ≡ codes "id=" ++ (to_string r.id ++ fields (later_fields r) (10 ∷ []))
unfolding summary_line fields
line_fields r = refl

later-AreFields : (r : Report) → AreFields (later_fields r)
later-AreFields r = omega arith

id_words :
    (r : Report)
    → words (first_line (summary_line r)) []
      ≡ (codes "id=" ++ to_string r.id) ∷ tokens (later_fields r)
id_words r =
    let fs : List Field = later_fields r in
    let whole : Bytes = to_string r.id ++ fields fs (10 ∷ []) in
    ap (λ (l : Bytes). words (first_line l) []) (line_fields r)
    ∙ ap (λ (l : Bytes). words l []) (first_line-plain (codes "id=") whole (omega arith))
    ∙ ap (λ (l : Bytes). words (codes "id=" ++ l) [])
        (first_line-plain (to_string r.id) (fields fs (10 ∷ [])) (number-IsPlain r.id))
    ∙ ap (λ (l : Bytes). words (codes "id=" ++ (to_string r.id ++ l)) [])
        (first_line-fields fs (later-AreFields r))
    ∙ words_named b'i' (codes "d=") r.id (fields fs []) (omega arith)
    ∙ words-fields fs b'i' (codes "d=" ++ to_string r.id) (later-AreFields r)

-- Every number fits the type that it is read into.
pub record IsReport (r : Report) : Type 0 where
  pub id_fits : r.id < 2 ^ 31
  pub recv_fits : r.recv_total < 2 ^ 64
  pub gaps_fit : r.gaps < 2 ^ 64
  pub reorder_fits : r.reorder_events < 2 ^ 64
  pub max_fits : r.latency_max_us < 2 ^ 64

abbrev pub taken_of : Report → Taken
taken_of r = record {
  sub_id = pos r.id;
  recv_total = r.recv_total;
  gaps = r.gaps;
  reorder_events = r.reorder_events;
  latency_max = r.latency_max_us;
}

tokens_taken :
    (r : Report)
    → take_words ((codes "id=" ++ to_string r.id) ∷ tokens (later_fields r)) nothing_taken
      ≡ record {
        sub_id = atoi (to_string r.id);
        recv_total = strtoull (to_string r.recv_total);
        gaps = strtoull (to_string r.gaps);
        reorder_events = strtoull (to_string r.reorder_events);
        latency_max = strtoull (to_string r.latency_max_us);
      }
unfolding take_words
tokens_taken r = refl

-- The driver reads a subscriber's number, its counters and its highest latency from the file as the
-- subscriber has written them, whatever the other percentiles are.
pub summary_reads_back : (r : Report) → IsReport r → read_summary (summary_line r) ≡ taken_of r
unfolding read_summary
summary_reads_back r v =
    ap (λ (l : List Bytes). take_words l nothing_taken) (id_words r)
    ∙ tokens_taken r
    ∙ rw
        (
          atoi-to_string r.id v.id_fits,
          strtoull-to_string r.recv_total v.recv_fits,
          strtoull-to_string r.gaps v.gaps_fit,
          strtoull-to_string r.reorder_events v.reorder_fits,
          strtoull-to_string r.latency_max_us v.max_fits,
        )
        refl
