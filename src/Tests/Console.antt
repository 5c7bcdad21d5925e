-- ===== src/Tests/Console.antt =====
-- Console output at concrete inputs.
use riscv64_embedded_os.Prelude.{ℕ, ◌≡◌, refl, List, [], ◌∷◌, true, arith, none, some, inl}
use riscv64_embedded_os.Printf.{
  print_num, printf, format_from, step, field_step, convert, convert_arg, signed, digits,
  digits_from, padded, space,
}
use riscv64_embedded_os.Printf.Number.{Prints, print_num-Prints, print_num_overflows}
use riscv64_embedded_os.Printf.Items.{
  Item, char, conversion, format, AreItems, printed, printf-printed,
}

abbrev no_strings : ℕ → List ℕ
no_strings a = []

-- `"%08x\n"`
abbrev items : List Item
items = conversion true (56 ∷ []) 120 ∷ char 10 ∷ []

items-AreItems : AreItems items
items-AreItems = (((refl, omega arith, tt), refl, refl), (omega arith, tt))

printf-printed_example :
    printf no_strings (format items) (0xbeef ∷ []) ≡ printed no_strings items (0xbeef ∷ [])
printf-printed_example = printf-printed no_strings items (0xbeef ∷ []) items-AreItems

-- `printf("%08x\n", 0xbeef)` prints `0000beef`.
padded_hex :
    printf no_strings (format items) (0xbeef ∷ [])
    ≡ some (48 ∷ 48 ∷ 48 ∷ 48 ∷ 98 ∷ 101 ∷ 101 ∷ 102 ∷ 13 ∷ 10 ∷ [])
unfolding printf format_from step field_step convert convert_arg print_num digits digits_from padded
padded_hex = refl

-- `printf("%d", -1)` prints `-1`.
minus_one_printed :
    printf no_strings (37 ∷ 100 ∷ []) (0xffff_ffff_ffff_ffff ∷ []) ≡ some (45 ∷ 49 ∷ [])
unfolding printf format_from step field_step convert convert_arg signed print_num digits digits_from
    padded
minus_one_printed = refl

-- `printf("%lu", 7)` prints `%lu`.
long_modifier : printf no_strings (37 ∷ 108 ∷ 117 ∷ []) (7 ∷ []) ≡ some (37 ∷ 108 ∷ 117 ∷ [])
unfolding printf format_from step field_step convert
long_modifier = refl

-- A format that ends in `%` is read behind its end.
lone_percent : printf no_strings (97 ∷ 37 ∷ []) [] ≡ none
unfolding printf format_from step
lone_percent = refl

print_num-Prints_example : Prints 1234 10 8 space
print_num-Prints_example =
    print_num-Prints 1234 10 8 space (omega arith) (inl refl) (omega arith) (inl refl)

print_num_overflows_example : print_num 7 10 40 space ≡ none
print_num_overflows_example = print_num_overflows 7 10 40 space (omega arith)
