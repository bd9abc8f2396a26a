-- ===== src/Wql/Parser/RoundTrip.antt =====
-- The parser of runtime/src/wql/parser.rs reads every written query.
use text.Mathlib.TextPositions.{eq_refl}
use mathlib.Core.Option
use agentic_vision.Prelude.{
  suc, ◌≡◌, refl, String, str_eq, Option, none, some, List, ◌∷◌, false, arith, length,
}
use agentic_vision.Wql.Syntax.{Token, keyword, ident, eof, ok, Parser}
use agentic_vision.Wql.Parser.{
  NumberOps, is_comma, peek_keyword, expect_keyword, parse_select_fields, parse_model_ref,
  parse_joins, parse_domain_list, optional, parse_order_clause, parse_limit, parse_where,
  parse_tokens,
}
use agentic_vision.Wql.Parser.Clauses.{
  NoWord, parse_select_fields-show, parse_domain_list-show, parse_order_clause-show,
}
use agentic_vision.Wql.Parser.Chains.{
  own_word, parse_joins-show, length-show_joins, parse_where-show,
}
use agentic_vision.Wql.Written.{
  Printer, Query, show_items, show_selection, show_condition, show_domain, show_order, show_limit,
  show_optional, limit_on, order_on, across_on, where_on, joins_on, show_query, items_meant,
  selection_meant, condition_meant, query_meant,
}

-- An optional clause does not begin with another word, if what follows it does not.
show_optional-NoWord :
    {A : Type 0} (word own : String) (show : Printer A) (o : Option A) (ts : List Token)
    → str_eq own word ≡ false
    → NoWord word ts
    → NoWord word (show_optional own show o ts)
unfolding peek_keyword
show_optional-NoWord word own show none ts other h = h
show_optional-NoWord word own show (some a) ts other h = other

show_optional-is_comma :
    {A : Type 0} (own : String) (show : Printer A) (o : Option A) (ts : List Token)
    → is_comma ts ≡ false
    → is_comma (show_optional own show o ts) ≡ false
unfolding is_comma
show_optional-is_comma own show none ts h = h
show_optional-is_comma own show (some a) ts h = refl

optional-show :
    {A B : Type 0} (word : String) (show : Printer A) (clause : Parser B) (meant : A → B)
    (o : Option A) (ts : List Token)
    → ((a : A) → clause (show a ts) ≡ ok (meant a, ts))
    → NoWord word ts
    → optional word clause (show_optional word show o ts) ≡ ok (Option.map meant o, ts)
unfolding optional
optional-show word show clause meant none ts reads h = rw (h, optional) refl
optional-show word show clause meant (some a) ts reads h =
    rw (own_word word (show a ts), optional, reads a) refl

module _ (ops : NumberOps) (q : Query) (unread : List Token) where
  abbrev end : List Token
  end = eof ∷ unread

  -- None of the clauses behind begins with the word, if neither theirs nor the end is it.
  limit-NoWord : (word : String) → str_eq "LIMIT" word ≡ false → NoWord word (limit_on q end)
  limit-NoWord word l =
      show_optional-NoWord word "LIMIT" show_limit q.limit end l (unfold peek_keyword in refl)

  order-NoWord :
      (word : String)
      → str_eq "LIMIT" word ≡ false
      → str_eq "ORDER" word ≡ false
      → NoWord word (order_on q end)
  order-NoWord word l o =
      show_optional-NoWord word "ORDER" show_order q.order_by _ o (limit-NoWord word l)

  across-NoWord :
      (word : String)
      → str_eq "LIMIT" word ≡ false
      → str_eq "ORDER" word ≡ false
      → str_eq "ACROSS" word ≡ false
      → NoWord word (across_on q end)
  across-NoWord word l o a =
      show_optional-NoWord word "ACROSS" (show_items show_domain) q.across _ a
        (order-NoWord word l o)

  where-NoWord :
      (word : String)
      → str_eq "LIMIT" word ≡ false
      → str_eq "ORDER" word ≡ false
      → str_eq "ACROSS" word ≡ false
      → str_eq "WHERE" word ≡ false
      → NoWord word (where_on q end)
  where-NoWord word l o a w =
      show_optional-NoWord word "WHERE" show_condition q.condition _ w (across-NoWord word l o a)

  limit-is_comma : is_comma (limit_on q end) ≡ false
  limit-is_comma = show_optional-is_comma "LIMIT" show_limit q.limit end (unfold is_comma in refl)

  order-is_comma : is_comma (order_on q end) ≡ false
  order-is_comma = show_optional-is_comma "ORDER" show_order q.order_by _ limit-is_comma

  reads_limit :
      optional "LIMIT" (parse_limit ops) (limit_on q end)
      ≡ ok (Option.map ops.as_usize q.limit, end)
  reads_limit =
      optional-show "LIMIT" show_limit (parse_limit ops) ops.as_usize q.limit end
        (λ n. unfold parse_limit in refl) (unfold peek_keyword in refl)

  reads_order :
      optional "ORDER" parse_order_clause (order_on q end)
      ≡ ok (Option.map (items_meant (λ o. o)) q.order_by, limit_on q end)
  reads_order =
      optional-show "ORDER" show_order parse_order_clause (items_meant (λ o. o)) q.order_by _
        (λ os. parse_order_clause-show os.0 os.1 _ limit-is_comma) (limit-NoWord "ORDER" refl)

  reads_across :
      optional "ACROSS" parse_domain_list (across_on q end)
      ≡ ok (Option.map (items_meant (λ d. d)) q.across, order_on q end)
  reads_across =
      optional-show "ACROSS" (show_items show_domain) parse_domain_list (items_meant (λ d. d))
        q.across _ (λ ds. parse_domain_list-show ds.0 ds.1 _ order-is_comma)
        (order-NoWord "ACROSS" refl refl)

  reads_where :
      optional "WHERE" (parse_where ops) (where_on q end)
      ≡ ok (Option.map (condition_meant ops) q.condition, across_on q end)
  reads_where =
      optional-show "WHERE" show_condition (parse_where ops) (condition_meant ops) q.condition _
        (λ c.
          parse_where-show ops c _ (across-NoWord "AND" refl refl refl)
            (across-NoWord "OR" refl refl refl))
        (across-NoWord "WHERE" refl refl refl)

  reads_joins :
      parse_joins (suc (length (joins_on q end))) (joins_on q end) ≡ ok (q.joins, where_on q end)
  reads_joins =
      parse_joins-show _ q.joins (where_on q end)
        (omega (arith, length-show_joins q.joins (where_on q end)))
        (where-NoWord "JOIN" refl refl refl refl)

  reads_select :
      parse_select_fields (show_selection q.select (keyword "FROM" ∷ ident q.from ∷ joins_on q end))
      ≡ ok (selection_meant q.select, keyword "FROM" ∷ ident q.from ∷ joins_on q end)
  reads_select =
      parse_select_fields-show q.select _ (unfold peek_keyword in refl) (unfold is_comma in refl)

  reads_word : (word : String) (ts : List Token) → expect_keyword word (keyword word ∷ ts) ≡ ok ts
  unfolding expect_keyword
  reads_word word ts = rw (eq_refl word) refl

  reads_model :
      (ts : List Token) → parse_model_ref (ident q.from ∷ ts) ≡ ok (record { name = q.from }, ts)
  unfolding parse_model_ref
  reads_model ts = refl

  -- The tokens of a written query, with an end behind them, are parsed as the query that they
  -- stand for, and the end and what is behind it are left unread; AND and OR group to the right
  -- whatever their order.
  pub parse_tokens-show_query :
      parse_tokens ops (show_query q (eof ∷ unread)) ≡ ok (query_meant ops q, eof ∷ unread)
  unfolding parse_tokens
  parse_tokens-show_query =
      rw
        (
          reads_word, parse_tokens, reads_select, reads_word, reads_model, reads_joins, reads_where,
          reads_across, reads_order, reads_limit,
        )
        refl
