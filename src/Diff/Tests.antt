-- ===== src/Diff/Tests.antt =====
-- Calls of `dict_diff` of dict_mixin.py, and the theorem at one.
use radical_utils.Prelude.{◌≡◌, refl, false, some}
use radical_utils.Prelude.Chars.{codes, same_text}
use radical_utils.Message.{number, list, dict, nil, cons, Fields, no_fields, field}
use radical_utils.Message.Entries.{get_field}
use radical_utils.Prefix.{less}
use radical_utils.Diff.{
  only_a, only_b, changed, lengths, nested, listed, no_deltas, delta, no_items, item, find_delta,
  put_delta, differ, pair_of, plain_diff, keys_of, insert_sorted, sort, size, sorted_lengths,
  if_any, if_items, add_item, find_entry, entry_keys, first_turn, second_turn, put_found, pass,
  diff_dicts, diff_values, dict_diff,
}
use radical_utils.Diff.Reports.{Reported, dict_diff-Reported}

abbrev before : Fields
before = field (codes "n") (number 1) (
    field (codes "d") (dict (field (codes "x") (number 1) no_fields))
      (field (codes "l") (list (cons (number 1) nil)) no_fields))

abbrev after : Fields
after = field (codes "n") (number 2) (
    field (codes "d") (dict (field (codes "x") (number 2) no_fields))
      (field (codes "m") (number 3) no_fields))

program : Unit {0}
unfolding same_text get_field less find_delta put_delta differ pair_of plain_diff keys_of
    insert_sorted sort size sorted_lengths if_any if_items add_item find_entry entry_keys first_turn
    second_turn put_found pass diff_dicts diff_values dict_diff
program = tt

-- The sides of the nested dictionaries are exchanged, those of the numbers are not.
difference :
    dict_diff before after
    ≡ delta (codes "d") (nested (delta (codes "x") (changed (number 2) (number 1)) no_deltas)) (
        delta (codes "l") (only_a (list (cons (number 1) nil))) (
          delta
            (codes "n")
            (changed (number 1) (number 2))
            (delta (codes "m") (only_b (number 3)) no_deltas)))
unfolding program
difference = refl

other_lengths :
    diff_values (list (cons (number 1) (cons (number 1) nil))) false (list nil)
    ≡ some (listed (item (lengths 0 2) no_items))
unfolding program
other_lengths = refl

dict_diff-Reported_example :
    Reported
      (get_field (codes "d") before)
      (get_field (codes "d") after)
      (find_delta (codes "d") (dict_diff before after))
dict_diff-Reported_example = dict_diff-Reported before after (codes "d")
