-- ===== src/Checks/Merge.antt =====
-- The merge of updates into the state at concrete inputs.
use d_mobility.Prelude.{String, map, contains, ◌||◌, ◌≡◌, refl, IsDistinctBy, ◌==◌}
use d_mobility.Graph.Merge.{
  Json, Items, Fields, scalar, items, nil, cons, end, field, lookup, deep_merge, merge_fields,
  to_list,
}
use d_mobility.Graph.Merge.Lookup.{
  merged_value, lookup-merge_fields, appended-IsDistinctBy, HasDistinctKeys,
}

-- The text of a scalar, for a list of scalars.
abbrev marker : Json → String
marker (scalar s) = s
marker _ = ""

abbrev old_errors : Items
old_errors = cons (scalar "zbrent") nil

abbrev new_errors : Items
new_errors = cons (scalar "zbrent") (cons (scalar "timeout") nil)

abbrev diagnostics : Fields
diagnostics = field "errors" (items old_errors) (field "last_error" (scalar "zbrent") end)

abbrev update : Fields
update = field "errors" (items new_errors) (field "last_error" (scalar "timeout") end)

update-HasDistinctKeys : HasDistinctKeys update
update-HasDistinctKeys = (refl, (refl, tt))

lookup-merge_fields_example :
    lookup "errors" (merge_fields marker "diagnostics" diagnostics update)
    ≡ merged_value marker "diagnostics" "errors"
        (lookup "errors" diagnostics)
        (lookup "errors" update)
lookup-merge_fields_example =
    lookup-merge_fields marker "diagnostics" "errors" diagnostics update update-HasDistinctKeys

merged_errors :
    deep_merge marker "diagnostics.errors" (items old_errors) (items new_errors) ≡ items new_errors
unfolding deep_merge
merged_errors = refl

appended-IsDistinctBy_example :
    IsDistinctBy (λ a b. marker a == marker b) (to_list new_errors)
    × ((k : String)
        → contains k (map marker (to_list new_errors)) ≡ (
            contains k (map marker (to_list old_errors))
            || contains k (map marker (to_list new_errors))))
appended-IsDistinctBy_example =
    appended-IsDistinctBy marker "diagnostics.errors" old_errors new_errors new_errors refl
      merged_errors
