-- ===== src/Examples/Layout.antt =====
-- cli/src/fmt/doc.rs: a list of two names.
use heklang.Base.{◌≡◌, ◌≢◌, refl, false, none, some, ◌∷◌, ◌++◌}
use heklang.Base.Text.{codes}
use heklang.Format.Doc.{
  Doc, nil, part, render, layout, place, fits, measure, weight, weights, stack_weight, group_mode,
  work_parts, stack_parts, columns, push_text, push_str, push_all_str, new_line, finish,
  truncate_trailing_spaces,
}
use heklang.Format.Doc.Total.{render-answers}
use heklang.Format.Doc.Clean.{IsTidy, IsPlain, ArePlain, render-IsTidy}

abbrev names : Doc
names =
    Doc.group
      (Doc.concat (part (Doc.text (codes "a,")) (part Doc.line (part (Doc.text (codes "b")) nil))))
      false

wide_test : render names 10 ≡ some (codes "a, b")
unfolding render layout place fits measure weight weights stack_weight group_mode work_parts
    stack_parts columns push_text push_str push_all_str new_line finish truncate_trailing_spaces
wide_test = refl

narrow_test : render names 3 ≡ some (codes "a," ++ b'\n' ∷ codes "b")
unfolding render layout place fits measure weight weights stack_weight group_mode work_parts
    stack_parts columns push_text push_str push_all_str new_line finish truncate_trailing_spaces
narrow_test = refl

render-answers_example : render names 3 ≢ none
render-answers_example = render-answers names 3

plain : IsPlain names
unfolding IsPlain ArePlain
plain = (refl, (tt, (refl, tt)))

render-IsTidy_example : IsTidy (codes "a," ++ b'\n' ∷ codes "b")
render-IsTidy_example = render-IsTidy names 3 (codes "a," ++ b'\n' ∷ codes "b") plain narrow_test
