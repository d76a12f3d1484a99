-- ===== src/Examples/Storage.antt =====
-- src/digest/sexp.rs, src/host.rs and src/harness.rs at concrete inputs.
use heklang.Base.{◌+◌, ◌≡◌, ◌≢◌, ◌++◌, refl, true, some, none, List, [], ◌∷◌, length, arith}
use heklang.Base.Int.{pos}
use heklang.Base.Text.{codes, text_eq}
use heklang.Ir.{Ident, EventPath-discrete}
use heklang.Value.{Value}
use heklang.Interp.Errors.{Result, ok, err, conflict}
use heklang.Digest.Sexp
use heklang.Digest.Sexp.{Sexp, no_items, item, pack, parse, quote_chars, read_string}
use heklang.Digest.Sexp.Strings.{read_string-quote_chars}
use heklang.Digest.Sexp.RoundTrip.{IsPackable, parse-pack}
use heklang.Digest.Sexp.Total.{parse-answers}
use heklang.Log.{
  Event, Record, stamped, Predicate, holds, path_eq, Query, AppendCondition, conflicts, beats,
  Harness, Keyring, push_all, head, record_at, append, read, erase_subject, wrapped_in, decrypt,
  key_eq, wrapping,
}
use heklang.Log.Appends.{
  IsPlaced, append-IsPlaced, record_at-append, append-at-head, append-append, in_slices,
}
use heklang.Log.Reads.{selects, filter, visit_all, read-visit_all, beats-selects}
use heklang.Log.Keys.{decrypt-erase}

abbrev line : Sexp
line = Sexp.list (
    item (Sexp.atom (codes "col"))
      (item (Sexp.str (codes "a \"b\"\n")) (item (Sexp.list no_items) no_items)))

parse-pack_example : parse (pack line) ≡ Sexp.ok line
unfolding IsPackable Sexp.in_atom Sexp.is_whitespace
parse-pack_example = parse-pack line ((omega arith, (refl, (refl, (refl, tt)))), (tt, (tt, tt)))

parse-answers_example : parse (codes "(a (b") ≢ Sexp.out_of_fuel
parse-answers_example = parse-answers (codes "(a (b")

read_string-quote_chars_example :
    read_string 4 [] (quote_chars (codes "a\"b") ++ b'"' ∷ codes " c", 7)
    ≡ Sexp.ok ([] ++ codes "a\"b", (codes " c", 7 + (length (quote_chars (codes "a\"b")) + 1)))
read_string-quote_chars_example =
    read_string-quote_chars 4 (codes "a\"b") [] (codes " c") 7 (omega arith)

abbrev opened : Event
opened = record {
  path = record { segments = codes "order" ∷ codes "opened" ∷ [] };
  fields = (codes "id", Value.int (pos 4)) ∷ [];
}

-- Every `order.opened`.
abbrev slice : Predicate
slice = record { event = record { segments = codes "order" ∷ codes "opened" ∷ [] }; filters = [] }

abbrev one : Harness
one = record {
  records = record { id = codes "a"; position = 0; at = pos 0; event = opened } ∷ [];
  keys = record { erased = []; under = [] };
}

abbrev at_head : AppendCondition
at_head = record { after = 1; slices = slice ∷ [] }

append-IsPlaced_example : IsPlaced 0 (Harness.records (append one (opened ∷ []) at_head).1)
unfolding IsPlaced
append-IsPlaced_example = append-IsPlaced one (opened ∷ []) at_head (refl, tt)

append-at-head_example : append one (opened ∷ []) at_head ≡ (ok tt, push_all one (opened ∷ []))
unfolding IsPlaced head
append-at-head_example = append-at-head one (opened ∷ []) at_head (refl, tt) (omega arith)

record_at-append_example :
    record_at (append one (opened ∷ []) at_head).1 (head one + 0)
    ≡ some (stamped (head one + 0) opened)
unfolding conflicts beats
record_at-append_example = record_at-append one (opened ∷ []) at_head 0 opened refl refl

append-append_example :
    append (append one (opened ∷ []) at_head).1 (opened ∷ []) at_head
    ≡ (err (conflict (AppendCondition.after at_head)), (append one (opened ∷ []) at_head).1)
unfolding conflicts beats head in_slices holds path_eq EventPath-discrete
append-append_example =
    append-append one (opened ∷ []) (opened ∷ []) at_head at_head refl (omega arith) refl

abbrev everything : Query
everything = record { slices = slice ∷ []; from = 0; upto = none }

abbrev collect : List Record → Record → Result (List Record)
collect seen r = ok (r ∷ seen)

read-visit_all_example :
    read one everything collect []
    ≡ visit_all collect [] (filter (selects everything) (Harness.records one))
unfolding IsPlaced
read-visit_all_example = read-visit_all one everything collect [] (refl, tt)

abbrev first_record : Record
first_record = record { id = codes "a"; position = 1; at = pos 0; event = opened }

beats-selects_example :
    selects
      (record {
        slices = AppendCondition.slices at_head;
        from = AppendCondition.after at_head;
        upto = none;
      })
      first_record
    ≡ true
unfolding beats holds path_eq EventPath-discrete
beats-selects_example = beats-selects at_head first_record (omega arith) refl

abbrev filters : List (Ident × Value)
filters = (codes "shop", Value.int (pos 1)) ∷ (codes "id", Value.int (pos 4)) ∷ []

abbrev no_keys : Keyring
no_keys = record { erased = []; under = [] }

abbrev shredded : Keyring
shredded = record { erased = (codes "C", codes "1") ∷ []; under = [] }

decrypt-erase_example :
    decrypt
      (erase_subject
        (wrapped_in no_keys (codes "C") (codes "1") ((codes "D", codes "2") ∷ []))
        (codes "D")
        (codes "2"))
      (codes "C")
      (codes "1")
      (codes "email")
      (codes "x")
    ≡ ok none
unfolding wrapping key_eq text_eq
decrypt-erase_example =
    decrypt-erase no_keys (codes "C") (codes "1") ((codes "D", codes "2") ∷ []) (codes "D")
      (codes "2") (codes "email") (codes "x") refl refl
