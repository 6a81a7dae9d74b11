-- ===== src/Examples/Queries.antt =====
-- The query language at concrete queries.
use archer.Prelude.{
  false, true, Bool, not, ◌&&◌, ◌==◌, arith, ◌≡◌, ◌↔◌, refl, List, [], ◌∷◌, ◌++◌, Text, codes, All,
  if◌then◌else◌, text_eq, index_byte, to_lower, to_upper, lookup_text,
}
use archer.Query.Token.{Token, term, and_tok, not_tok, Returns, ok}
use archer.Query.Lex.{lex, lex_loop, take_term, classify, is_break}
use archer.Query.Lex.Words.{TermText, done, plain}
use archer.Query.Lex.RoundTrip.{IsToken, render}
use archer.Query.Term.{
  Term, Op, parse_term, resolve_field, split_field, parse_value, find_comparison, parse_plain,
  validate_field_value,
}
use archer.Query.Parse.{Node, or_node, and_node, not_node, leaf, parse, parse_tokens}
use archer.Query.Parse.Grammar.{Derives}
use archer.Query.Parse.Sound.{Understood, parse-Returns}
use archer.Query.Parse.Complete.{parse_tokens_iff}
use archer.Query.Parse.RoundTrip.{alone, print, IsPrintable, parse-render-print}

abbrev src_leaf : Term
src_leaf = record {
  field = codes "src";
  op = Op.plain;
  value = codes "10.0.0.5";
  lo = [];
  hi = [];
  phrase = false;
}

abbrev word_leaf : Term
word_leaf = record {
  field = [];
  op = Op.plain;
  value = codes "evil";
  lo = [];
  hi = [];
  phrase = false;
}

abbrev spell_leaf : Term → Text
spell_leaf t = if text_eq t.field [] then t.value else t.field ++ (codes ":" ++ t.value)

abbrev tree : Node
tree = and_node (or_node (leaf src_leaf) (leaf word_leaf)) (not_node (leaf word_leaf))

src_leaf_parsed : parse_term (codes "src:10.0.0.5") ≡ ok src_leaf
unfolding parse_term resolve_field split_field index_byte to_lower lookup_text parse_value
    find_comparison parse_plain validate_field_value
src_leaf_parsed = refl

word_leaf_parsed : parse_term (codes "evil") ≡ ok word_leaf
unfolding parse_term resolve_field split_field index_byte to_lower lookup_text parse_value
    find_comparison parse_plain validate_field_value
word_leaf_parsed = refl

-- a text without quotes, brackets, and bytes that end a word
abbrev simple : Text → Bool
simple [] = true
simple (c ∷ s) = not (is_break c) && (not (c == b'"') && (not (c == b'[') && simple s))

simple-TermText : (s : Text) → simple s ≡ true → TermText s
simple-TermText [] h = done
simple-TermText (c ∷ s) h =
    plain (ground arith) (ground arith) (ground arith) (simple-TermText s (ground arith))

src_word : IsToken (term (codes "src:10.0.0.5"))
unfolding classify to_upper
src_word = (simple-TermText (codes "src:10.0.0.5") refl, λ e. cc, refl)

evil_word : IsToken (term (codes "evil"))
unfolding classify to_upper
evil_word = (simple-TermText (codes "evil") refl, λ e. cc, refl)

tree-IsPrintable : IsPrintable spell_leaf tree
tree-IsPrintable =
    (((src_leaf_parsed, src_word), (word_leaf_parsed, evil_word)), (word_leaf_parsed, evil_word))

parse-render-print_example : parse (render (print spell_leaf alone tree)) ≡ ok tree
parse-render-print_example = parse-render-print spell_leaf tree tree-IsPrintable

abbrev tokens : List Token
tokens = term (codes "src:10.0.0.5") ∷ and_tok ∷ not_tok ∷ term (codes "evil") ∷ []

parse_tokens_iff_example :
    (parse_tokens tokens ≡ ok (and_node (leaf src_leaf) (not_node (leaf word_leaf))))
    ↔ Derives tokens (and_node (leaf src_leaf) (not_node (leaf word_leaf)))
parse_tokens_iff_example =
    parse_tokens_iff tokens (and_node (leaf src_leaf) (not_node (leaf word_leaf)))

parse-Returns_example :
    Returns (Understood (codes "src:10.0.0.5 AND (evil")) (parse (codes "src:10.0.0.5 AND (evil"))
parse-Returns_example = parse-Returns (codes "src:10.0.0.5 AND (evil")

tokens_IsToken : All IsToken tokens
tokens_IsToken = (src_word, (tt, (tt, (evil_word, tt))))

lexed : lex (codes "src:10.0.0.5 and NOT evil") ≡ ok tokens
unfolding lex lex_loop take_term classify to_upper
lexed = refl
