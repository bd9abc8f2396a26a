-- ===== src/Wql/Parser/Clauses.antt =====
-- The parser of runtime/src/wql/parser.rs on the tokens of the clauses of a
-- written query.
use agentic_vision.Prelude.{
  ℕ, zero, suc, ◌<◌, ◌≤◌, ◌≡◌, refl, String, Option, none, some, List, [], ◌∷◌, Bool, true, false,
  arith, length,
}
use agentic_vision.Wql.Syntax.{OrderByField, Token, comma, Parsed, ok, Parser}
use agentic_vision.Wql.Parser.{
  comma_separated, after_item, is_comma, peek_keyword, expect_keyword, expect_ident, parse_alias,
  parse_single_field, parse_select_fields, parse_domain_list, parse_direction, parse_order_field,
  parse_order_by, parse_order_clause,
}
use agentic_vision.Wql.Written.{
  Printer, WrittenField, Selection, all_fields, fields, show_alias, show_direction, show_field,
  show_items, show_selection, show_domain, show_order_field, show_order, field_meant, items_meant,
  selection_meant,
}

-- A printer and a parser of items that agree in front of the tokens that `Ends` allows.
record Agrees {A B : Type 0} (show : Printer A) (item : Parser B) (meant : A → B)
    (Ends : List Token → Type 0) : Type 0 where
  reads : (a : A) (ts : List Token) → Ends ts → item (show a ts) ≡ ok (meant a, ts)
  grows : (a : A) (ts : List Token) → length ts < length (show a ts)
  before_comma : (ts : List Token) → Ends (comma ∷ ts)

after_item-last :
    {A : Type 0} (a : A) (ts : List Token) (later : Parsed (List A × List Token))
    → is_comma ts ≡ false
    → after_item a ts later ≡ ok (a ∷ [], ts)
unfolding after_item
after_item-last a ts later h = rw (h, after_item) refl

after_item-comma :
    {A : Type 0} (a : A) (ts : List Token) (items : List A) (rest : List Token)
    → after_item a (comma ∷ ts) (ok (items, rest)) ≡ ok (a ∷ items, rest)
unfolding after_item is_comma
after_item-comma a ts items rest = refl

module _ {A B : Type 0} (show : Printer A) (item : Parser B) (meant : A → B)
    (Ends : List Token → Type 0) (agrees : Agrees show item meant Ends) where
  length-show_items :
      (a : A) (later : List A) (ts : List Token)
      → length later < length (show_items show (a, later) ts)
  length-show_items a [] ts = omega (arith, agrees.grows a ts)
  length-show_items a (b ∷ later) ts =
      omega (
        arith,
        length-show_items b later ts,
        agrees.grows a (comma ∷ show_items show (b, later) ts),
      )

  comma_separated-show :
      (fuel : ℕ) (a : A) (later : List A) (ts : List Token)
      → length later < fuel
      → Ends ts
      → is_comma ts ≡ false
      → comma_separated item fuel (show_items show (a, later) ts)
        ≡ ok (items_meant meant (a, later), ts)
  unfolding comma_separated
  comma_separated-show zero a later ts h ends last = absurd (omega arith)
  comma_separated-show (suc fuel) a [] ts h ends last =
      rw (agrees.reads a ts ends, comma_separated) (after_item-last (meant a) ts _ last)
  comma_separated-show (suc fuel) a (b ∷ later) ts h ends last =
      rw
        (
          agrees.reads a (comma ∷ show_items show (b, later) ts) (agrees.before_comma _),
          comma_separated,
          comma_separated-show fuel b later ts (omega arith) ends last,
        )
        (after_item-comma (meant a) _ (items_meant meant (b, later)) ts)

  comma_separated-all :
      (a : A) (later : List A) (ts : List Token)
      → Ends ts
      → is_comma ts ≡ false
      → comma_separated item
          (suc (length (show_items show (a, later) ts)))
          (show_items show (a, later) ts)
        ≡ ok (items_meant meant (a, later), ts)
  comma_separated-all a later ts ends last =
      comma_separated-show _ a later ts (omega (arith, length-show_items a later ts)) ends last

abbrev pub NoWord : String → List Token → Type 0
NoWord word ts = peek_keyword word ts ≡ false

comma-NoWord : (word : String) (ts : List Token) → NoWord word (comma ∷ ts)
unfolding peek_keyword
comma-NoWord word ts = refl

parse_alias-show :
    (alias : Option String) (ts : List Token)
    → NoWord "AS" ts
    → parse_alias (show_alias alias ts) ≡ (alias, ts)
unfolding parse_alias
parse_alias-show none ts h = rw (h, parse_alias) refl
parse_alias-show (some alias) ts h = unfold peek_keyword in refl

length-show_alias :
    (alias : Option String) (ts : List Token) → length ts ≤ length (show_alias alias ts)
length-show_alias none ts = omega arith
length-show_alias (some alias) ts = omega arith

parse_single_field-show :
    (f : WrittenField) (ts : List Token)
    → NoWord "AS" ts
    → parse_single_field (show_field f ts) ≡ ok (field_meant f, ts)
unfolding parse_single_field
parse_single_field-show f ts h = rw (parse_alias-show f.alias ts h, parse_single_field) refl

field-Agrees : Agrees show_field parse_single_field field_meant (NoWord "AS")
field-Agrees = record {
  reads = parse_single_field-show;
  grows = λ f ts. omega (arith, length-show_alias f.alias ts);
  before_comma = comma-NoWord "AS";
}

domain-Agrees : Agrees show_domain (expect_ident "domain name") (λ d. d) (λ ts. Unit {0})
domain-Agrees = record {
  reads = λ d ts h. refl;
  grows = λ d ts. omega arith;
  before_comma = λ ts. tt;
}

parse_direction-show :
    (ascending : Bool) (ts : List Token)
    → parse_direction (show_direction ascending ts) ≡ (ascending, ts)
unfolding parse_direction peek_keyword
parse_direction-show true ts = refl
parse_direction-show false ts = refl

length-show_direction :
    (ascending : Bool) (ts : List Token) → length ts ≤ length (show_direction ascending ts)
length-show_direction true ts = omega arith
length-show_direction false ts = omega arith

parse_order_field-show :
    (o : OrderByField) (ts : List Token) → parse_order_field (show_order_field o ts) ≡ ok (o, ts)
unfolding parse_order_field
parse_order_field-show o ts = rw (parse_direction-show o.ascending ts, parse_order_field) refl

order-Agrees : Agrees show_order_field parse_order_field (λ o. o) (λ ts. Unit {0})
order-Agrees = record {
  reads = λ o ts h. parse_order_field-show o ts;
  grows = λ o ts. omega (arith, length-show_direction o.ascending ts);
  before_comma = λ ts. tt;
}

pub parse_select_fields-show :
    (s : Selection) (ts : List Token)
    → NoWord "AS" ts
    → is_comma ts ≡ false
    → parse_select_fields (show_selection s ts) ≡ ok (selection_meant s, ts)
unfolding parse_select_fields
parse_select_fields-show all_fields ts h last = refl
parse_select_fields-show (fields f []) ts h last =
    comma_separated-all show_field parse_single_field field_meant (NoWord "AS") field-Agrees f [] ts
      h last
parse_select_fields-show (fields f (g ∷ fs)) ts h last =
    comma_separated-all show_field parse_single_field field_meant (NoWord "AS") field-Agrees f
      (g ∷ fs) ts h last

pub parse_domain_list-show :
    (d : String) (ds : List String) (ts : List Token)
    → is_comma ts ≡ false
    → parse_domain_list (show_items show_domain (d, ds) ts) ≡ ok (items_meant (λ d. d) (d, ds), ts)
unfolding parse_domain_list
parse_domain_list-show d ds ts last =
    comma_separated-all show_domain (expect_ident "domain name") (λ d. d) (λ ts. Unit {0})
      domain-Agrees d ds ts tt last

pub parse_order_clause-show :
    (o : OrderByField) (os : List OrderByField) (ts : List Token)
    → is_comma ts ≡ false
    → parse_order_clause (show_order (o, os) ts) ≡ ok (items_meant (λ o. o) (o, os), ts)
unfolding parse_order_clause parse_order_by expect_keyword
parse_order_clause-show o os ts last =
    comma_separated-all show_order_field parse_order_field (λ o. o) (λ ts. Unit {0}) order-Agrees o
      os ts tt last
