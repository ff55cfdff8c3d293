-- ===== src/Edits/Symbols/Resolve.antt =====
-- `resolveSymbolInFile`: which symbol an id stands for.
use arno.Base.{
  ◌≡◌, ◌≢◌, refl, ap, sym, Bool, true, false, List, [], ◌∷◌, ◌++◌, Option, none, some, Text,
  text_eq, text_eq_iff, if◌then◌else◌, length, All, arith,
}
use arno.Edits.Index.{Answer, ok, err, symbol_not_found}
use arno.Edits.Symbols.{
  Symbol, symbol_id_name, named, find_id, ids_of, candidates_named, symbol_not_found_error, only,
  exact_or_named, resolve_symbol_in_file,
}

abbrev pub NoId : Text → Symbol → Type 0
NoId id s = text_eq s.id id ≡ false

abbrev pub NoName : Text → Symbol → Type 0
NoName name s = text_eq s.name name ≡ false

-- `s` stands in the list, and what stands before it and behind it satisfies a predicate.
pub record StandsIn (symbols : List Symbol) (s : Symbol) (Before After : Symbol → Type 0)
    : Type 0 where
  pub front : List Symbol
  pub back : List Symbol
  pub symbols_eq : symbols ≡ front ++ s ∷ back
  pub front_all : All Before front
  pub back_all : All After back

abbrev pub Anything : Symbol → Type 0
Anything s = Unit

All-Anything : (symbols : List Symbol) → All Anything symbols
All-Anything [] = tt
All-Anything (s ∷ symbols) = (tt, All-Anything symbols)

later :
    {Before After : Symbol → Type 0} (t s : Symbol) (symbols : List Symbol)
    → Before t
    → StandsIn symbols s Before After
    → StandsIn (t ∷ symbols) s Before After
later t s symbols h i = record {
  front = t ∷ i.front;
  back = i.back;
  symbols_eq = ap (λ l. t ∷ l) i.symbols_eq;
  front_all = (h, i.front_all);
  back_all = i.back_all;
}

pub data Found (id : Text) (symbols : List Symbol) : Option Symbol → Type 0 where
  found :
      (s : Symbol) → s.id ≡ id → StandsIn symbols s (NoId id) Anything → Found id symbols (some s)
  absent : All (NoId id) symbols → Found id symbols none

pub find_id-Found : (id : Text) (symbols : List Symbol) → Found id symbols (find_id id symbols)
unfolding find_id
find_id-Found id [] = absent tt
find_id-Found id (t ∷ symbols) =
    by_test (text_eq t.id id) refl (find_id id symbols) (find_id-Found id symbols)
  where
    by_test :
        (b : Bool)
        → text_eq t.id id ≡ b
        → (o : Option Symbol) → Found id symbols o
        → Found id (t ∷ symbols) (if b then some t else o)
    by_test true e o f = found t ((text_eq_iff t.id id).0 e) (record {
      front = [];
      back = symbols;
      symbols_eq = refl;
      front_all = tt;
      back_all = All-Anything symbols;
    })
    by_test false e _ (found s same i) = found s same (later t s symbols e i)
    by_test false e _ (absent h) = absent (e, h)

data Named (name : Text) (symbols : List Symbol) : List Symbol → Type 0 where
  nobody : All (NoName name) symbols → Named name symbols []
  one :
      (s : Symbol)
      → s.name ≡ name
      → StandsIn symbols s (NoName name) (NoName name)
      → Named name symbols (s ∷ [])
  several : (s t : Symbol) (more : List Symbol) → Named name symbols (s ∷ t ∷ more)

named-Named : (name : Text) (symbols : List Symbol) → Named name symbols (named name symbols)
unfolding named
named-Named name [] = nobody tt
named-Named name (u ∷ symbols) =
    by_test (text_eq u.name name) refl (named name symbols) (named-Named name symbols)
  where
    by_test :
        (b : Bool)
        → text_eq u.name name ≡ b
        → (l : List Symbol) → Named name symbols l
        → Named name (u ∷ symbols) (if b then u ∷ l else l)
    by_test true e _ (nobody h) =
        one u ((text_eq_iff u.name name).0 e)
          (record { front = []; back = symbols; symbols_eq = refl; front_all = tt; back_all = h })
    by_test true e _ (one s same i) = several u s []
    by_test true e _ (several s t more) = several u s (t ∷ more)
    by_test false e _ (nobody h) = nobody (e, h)
    by_test false e _ (one s same i) = one s same (later u s symbols e i)
    by_test false e _ (several s t more) = several s t more

-- How an id is resolved. `exact`: the first symbol that has the id. `by_name`: no symbol has the
-- id, and this symbol alone has the name that the id carries. `unresolved`: no symbol has the id,
-- and the candidates of the error, which are not exactly one, are the ids of the symbols that have
-- the name.
pub data Resolved (symbols : List Symbol) (id : Text) : Answer Symbol → Type 0 where
  exact :
      (s : Symbol) → s.id ≡ id → StandsIn symbols s (NoId id) Anything → Resolved symbols id (ok s)
  by_name :
      (name : Text) (s : Symbol)
      → All (NoId id) symbols
      → symbol_id_name id ≡ some name
      → s.name ≡ name
      → StandsIn symbols s (NoName name) (NoName name)
      → Resolved symbols id (ok s)
  unresolved :
      (candidates : List Symbol)
      → All (NoId id) symbols
      → candidates ≡ candidates_named (symbol_id_name id) symbols
      → length candidates ≢ 1
      → Resolved symbols id (err (symbol_not_found id (ids_of candidates)))

-- An id is resolved to the first symbol that has it; where none has it, to the only symbol that has
-- the name the id carries; and otherwise it is refused, with the symbols of that name.
pub resolve_symbol_in_file-Resolved :
    (symbols : List Symbol) (id : Text) → Resolved symbols id (resolve_symbol_in_file symbols id)
unfolding resolve_symbol_in_file symbol_not_found_error
resolve_symbol_in_file-Resolved symbols id = by_id (find_id id symbols) (find_id-Found id symbols)
  where
    by_matches :
        All (NoId id) symbols
        → (name : Text) → symbol_id_name id ≡ some name
        → (l : List Symbol) → l ≡ candidates_named (symbol_id_name id) symbols
        → Named name symbols l
        → Resolved symbols id (only (symbol_not_found id (ids_of l)) l)
    by_matches h name e _ el (nobody none_named) = unresolved [] h el (λ z. omega arith)
    by_matches h name e _ el (one s same i) = by_name name s h e same i
    by_matches h name e _ el (several s t more) = unresolved (s ∷ t ∷ more) h el (λ z. omega arith)

    by_name_of :
        All (NoId id) symbols
        → (o : Option Text) → symbol_id_name id ≡ o
        → Resolved symbols id (
            only
              (symbol_not_found id (ids_of (candidates_named o symbols)))
              (candidates_named o symbols))
    by_name_of h none e =
        unresolved [] h (ap (λ o. candidates_named o symbols) (sym e)) (λ z. omega arith)
    by_name_of h (some name) e =
        by_matches h name e (named name symbols) (ap (λ o. candidates_named o symbols) (sym e))
          (named-Named name symbols)

    by_id :
        (o : Option Symbol) → Found id symbols o → Resolved symbols id (exact_or_named id symbols o)
    by_id _ (found s same i) = exact s same i
    by_id _ (absent h) = by_name_of h (symbol_id_name id) refl
