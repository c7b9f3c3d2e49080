-- ===== src/Translate/Opcodes/Lines.antt =====
-- The search agrees with the manual, checked by evaluation for each of the sixteen lines of opcodes.
use vadm.Base.{
  Option, List, [], ◌∷◌, ℕ, ◌^◌, ◌+◌, ◌*◌, ◌/◌, ◌%◌, ◌<◌, ◌≡◌, refl, ap, sym, ◌∙◌, arith,
}
use vadm.Base.Tables.{tabulate, tabulate_ext, tabulate_ext₂}
use vadm.Translate.State.{OpcodeHandler}
use vadm.Translate.Table.{search_table, valid_ea_mode}
use vadm.Translate.Opcodes.{classify, handler_of}

abbrev searched : ℕ → List (List (Option OpcodeHandler))
searched line = tabulate 64 (λ o. tabulate 64 (λ p. handler_of (line * 4096 + (o * 64 + p))))

abbrev known : ℕ → List (List (Option OpcodeHandler))
known line = tabulate 64 (λ o. tabulate 64 (λ p. classify (line * 4096 + (o * 64 + p))))

abbrev Agrees : ℕ → Type 0
Agrees line = searched line ≡ known line

line_0 : Agrees 0
unfolding tabulate search_table valid_ea_mode classify
line_0 = refl

line_1 : Agrees 1
unfolding tabulate search_table valid_ea_mode classify
line_1 = refl

line_2 : Agrees 2
unfolding tabulate search_table valid_ea_mode classify
line_2 = refl

line_3 : Agrees 3
unfolding tabulate search_table valid_ea_mode classify
line_3 = refl

line_4 : Agrees 4
unfolding tabulate search_table valid_ea_mode classify
line_4 = refl

line_5 : Agrees 5
unfolding tabulate search_table valid_ea_mode classify
line_5 = refl

line_6 : Agrees 6
unfolding tabulate search_table valid_ea_mode classify
line_6 = refl

line_7 : Agrees 7
unfolding tabulate search_table valid_ea_mode classify
line_7 = refl

line_8 : Agrees 8
unfolding tabulate search_table valid_ea_mode classify
line_8 = refl

line_9 : Agrees 9
unfolding tabulate search_table valid_ea_mode classify
line_9 = refl

line_10 : Agrees 10
unfolding tabulate search_table valid_ea_mode classify
line_10 = refl

line_11 : Agrees 11
unfolding tabulate search_table valid_ea_mode classify
line_11 = refl

line_12 : Agrees 12
unfolding tabulate search_table valid_ea_mode classify
line_12 = refl

line_13 : Agrees 13
unfolding tabulate search_table valid_ea_mode classify
line_13 = refl

line_14 : Agrees 14
unfolding tabulate search_table valid_ea_mode classify
line_14 = refl

line_15 : Agrees 15
unfolding tabulate search_table valid_ea_mode classify
line_15 = refl

lines : tabulate 16 searched ≡ tabulate 16 known
lines =
    unfold tabulate in
    λ i.
      line_15 i
      ∷ line_14 i
      ∷ line_13 i
      ∷ line_12 i
      ∷ line_11 i
      ∷ line_10 i
      ∷ line_9 i
      ∷ line_8 i
      ∷ line_7 i
      ∷ line_6 i
      ∷ line_5 i
      ∷ line_4 i
      ∷ line_3 i
      ∷ line_2 i
      ∷ line_1 i
      ∷ line_0 i
      ∷ []

-- For every opcode, the search in the table finds the handler of the instruction that the manual
-- gives the opcode to, with the effective addresses that the instruction allows, and none if that is
-- no instruction that the program knows.
pub search_table-classify : (opcode : ℕ) → opcode < 2 ^ 16 → handler_of opcode ≡ classify opcode
search_table-classify opcode h =
    ap handler_of digits
    ∙ tabulate_ext₂ 64 64 (λ o p. handler_of (opcode / 4096 * 4096 + (o * 64 + p)))
        (λ o p. classify (opcode / 4096 * 4096 + (o * 64 + p))) (opcode / 64 % 64) (opcode % 64)
        (tabulate_ext 16 searched known (opcode / 4096) lines (omega arith)) (omega arith)
        (omega arith)
    ∙ ap classify (sym digits)
  where
    digits : opcode ≡ opcode / 4096 * 4096 + (opcode / 64 % 64 * 64 + opcode % 64)
    digits = omega arith
