-- ===== src/Submit/Groups.antt =====
-- _helpers.c of src/python_api/ops/files and of src/python_api/ops/sockets: what `__aexit__` raises where
-- the body has raised and closing has failed. The two functions differ in their names only.
use puring.Base.{
  ℕ, ◌+◌, ◌≡◌, refl, Option, none, some, Bool, List, [], ◌∷◌, ◌++◌, arith, if◌then◌else◌,
}
use puring.References.{Change, took, gave, one, refs_got, refs_lost}

-- The arguments: the exception of the body, and whether its traceback is not `None`.
pub record Body : Type 0 where
  pub exc_type : ℕ
  pub exc_val : ℕ
  pub exc_tb : ℕ
  pub has_tb : Bool

-- The exception of closing, as `PyErr_Fetch` and `PyErr_NormalizeException` leave it.
pub record Close : Type 0 where
  pub close_type : ℕ
  pub close_val : ℕ
  pub close_tb : Option ℕ

-- What the interpreter answers: NULL is an exception of its own.
pub record Interpreter : Type 0 where
  pub fetched : Option Close
  pub builtins : Option ℕ
  pub eg_type : Option ℕ
  pub exc_list : Option ℕ
  pub eg : Option ℕ

-- The exception that is set in the end: that of the body, a group of two at an address, or that of the
-- call that failed.
pub data Indicator : Type 0 where
  of_body of_failure : Indicator
  of_group : (eg first second : ℕ) → Indicator

-- The traceback that each exception gets, and the references, in the order of their changing.
pub record Raising : Type 0 where
  pub indicator : Indicator
  pub traced : List (ℕ × ℕ)
  pub changes : List Change

-- `if (close_tb)`, and `Py_XDECREF` of the type and the traceback.
abbrev pub close_traced : ℕ → Option ℕ → List (ℕ × ℕ)
close_traced close_val none = []
close_traced close_val (some tb) = (close_val, tb) ∷ []

abbrev pub fetching : ℕ → ℕ → Option ℕ → List Change
fetching close_type close_val none = took close_type ∷ took close_val ∷ gave close_type ∷ []
fetching close_type close_val (some tb) =
    took close_type ∷ took close_val ∷ took tb ∷ gave close_type ∷ gave tb ∷ []

-- `if (body_exc_tb && body_exc_tb != Py_None)`
abbrev pub body_traced : Body → List (ℕ × ℕ)
body_traced b = if b.has_tb then (b.exc_val, b.exc_tb) ∷ [] else []

-- The steps behind that, each from the answer of the interpreter: what is set, and the changes.
unfoldable pub group_called : Body → ℕ → ℕ → ℕ → Option ℕ → Indicator × List Change
group_called b close_val eg_type exc_list none = (of_failure, gave eg_type ∷ gave exc_list ∷ [])
group_called b close_val eg_type exc_list (some eg) =
    (of_group eg b.exc_val close_val, took eg ∷ gave eg_type ∷ gave exc_list ∷ gave eg ∷ [])

abbrev pub behind : List Change → Indicator × List Change → Indicator × List Change
behind before (i, changes) = (i, before ++ changes)

unfoldable pub list_made : Body → ℕ → ℕ → Interpreter → Option ℕ → Indicator × List Change
unfolding group_called
list_made b close_val eg_type a none = (of_failure, gave eg_type ∷ gave close_val ∷ [])
list_made b close_val eg_type a (some exc_list) =
    behind (took exc_list ∷ took b.exc_val ∷ gave b.exc_val ∷ gave close_val ∷ [])
      (group_called b close_val eg_type exc_list a.eg)

unfoldable pub type_found : Body → ℕ → ℕ → Interpreter → Option ℕ → Indicator × List Change
unfolding list_made
type_found b close_val builtins a none = (of_failure, gave builtins ∷ gave close_val ∷ [])
type_found b close_val builtins a (some eg_type) =
    behind (took eg_type ∷ gave builtins ∷ []) (list_made b close_val eg_type a a.exc_list)

unfoldable pub builtins_found : Body → ℕ → Interpreter → Option ℕ → Indicator × List Change
unfolding type_found
builtins_found b close_val a none = (of_failure, gave close_val ∷ [])
builtins_found b close_val a (some builtins) =
    behind (took builtins ∷ []) (type_found b close_val builtins a a.eg_type)

-- `if (!close_val)`: `PyErr_Restore` takes the references over before they are got.
unfoldable pub fetched_close : Body → Interpreter → Option Close → Raising
unfolding builtins_found
fetched_close b a none = record {
  indicator = of_body;
  traced = [];
  changes =
      gave b.exc_type
      ∷ gave b.exc_val
      ∷ gave b.exc_tb
      ∷ took b.exc_type
      ∷ took b.exc_val
      ∷ took b.exc_tb
      ∷ [];
}
fetched_close b a (some c) =
    let (i, changes) = builtins_found b c.close_val a a.builtins in
    record {
      indicator = i;
      traced = close_traced c.close_val c.close_tb ++ body_traced b;
      changes = fetching c.close_type c.close_val c.close_tb ++ changes;
    }

-- `_raise_file_exception_group` and `_raise_socket_exception_group`
unfoldable pub raise_file_exception_group : Body → Interpreter → Raising
unfolding fetched_close
raise_file_exception_group b a = fetched_close b a a.fetched

unfoldable pub raise_socket_exception_group : Body → Interpreter → Raising
unfolding fetched_close
raise_socket_exception_group b a = fetched_close b a a.fetched

-- What is set, by the answers of the interpreter.
pub data Raises (b : Body) (a : Interpreter) : Indicator → Type 0 where
  nothing_fetched : a.fetched ≡ none → Raises b a of_body
  both_raised :
      (c : Close) (eg : ℕ)
      → a.fetched ≡ some c
      → a.eg ≡ some eg
      → Raises b a (of_group eg b.exc_val c.close_val)
  no_builtins : (c : Close) → a.fetched ≡ some c → a.builtins ≡ none → Raises b a of_failure
  no_type : (c : Close) → a.fetched ≡ some c → a.eg_type ≡ none → Raises b a of_failure
  no_list : (c : Close) → a.fetched ≡ some c → a.exc_list ≡ none → Raises b a of_failure
  no_group : (c : Close) → a.fetched ≡ some c → a.eg ≡ none → Raises b a of_failure

-- The references of each object balance.
pub record IsSettled (b : Body) (a : Interpreter) (r : Raising) : Type 0 where
  pub raises : Raises b a r.indicator
  pub balanced : (o : ℕ) → refs_got o r.changes ≡ refs_lost o r.changes

-- What has been fetched leaves one reference, that of the exception.
fetching-balance :
    (o close_type close_val : ℕ) (close_tb : Option ℕ) (changes : List Change)
    → one close_val o + refs_got o changes ≡ refs_lost o changes
    → refs_got o (fetching close_type close_val close_tb ++ changes)
      ≡ refs_lost o (fetching close_type close_val close_tb ++ changes)
unfolding refs_got refs_lost
fetching-balance o close_type close_val none changes rest = omega arith
fetching-balance o close_type close_val (some tb) changes rest = omega arith

abbrev answers : Option Close → Option ℕ → Option ℕ → Option ℕ → Option ℕ → Interpreter
answers fetched builtins eg_type exc_list eg = record {
  fetched = fetched;
  builtins = builtins;
  eg_type = eg_type;
  exc_list = exc_list;
  eg = eg;
}

fetched_close-IsSettled :
    (b : Body) (fetched : Option Close) (builtins eg_type exc_list eg : Option ℕ)
    → IsSettled b
        (answers fetched builtins eg_type exc_list eg)
        (fetched_close b (answers fetched builtins eg_type exc_list eg) fetched)
unfolding fetched_close builtins_found type_found list_made group_called refs_got refs_lost
fetched_close-IsSettled b none builtins eg_type exc_list eg = record {
  raises = nothing_fetched refl;
  balanced = λ o. omega arith;
}
fetched_close-IsSettled b (some c) none eg_type exc_list eg = record {
  raises = no_builtins c refl refl;
  balanced = λ o. fetching-balance o c.close_type c.close_val c.close_tb _ (omega arith);
}
fetched_close-IsSettled b (some c) (some builtins) none exc_list eg = record {
  raises = no_type c refl refl;
  balanced = λ o. fetching-balance o c.close_type c.close_val c.close_tb _ (omega arith);
}
fetched_close-IsSettled b (some c) (some builtins) (some eg_type) none eg = record {
  raises = no_list c refl refl;
  balanced = λ o. fetching-balance o c.close_type c.close_val c.close_tb _ (omega arith);
}
fetched_close-IsSettled b (some c) (some builtins) (some eg_type) (some exc_list) none = record {
  raises = no_group c refl refl;
  balanced = λ o. fetching-balance o c.close_type c.close_val c.close_tb _ (omega arith);
}
fetched_close-IsSettled b (some c) (some builtins) (some eg_type) (some exc_list) (some eg) =
    record {
      raises = both_raised c eg refl refl;
      balanced = λ o. fetching-balance o c.close_type c.close_val c.close_tb _ (omega arith);
    }

-- Whatever the interpreter answers, the two functions that raise the exceptions of a body and of
-- closing lose every reference as often as they get it; and they set the exception of the body where
-- closing has set none, else a group of the two, or the exception of the call that failed on the way
-- to it.
pub raise_exception_group-IsSettled :
    (b : Body) (a : Interpreter)
    → IsSettled b a (raise_file_exception_group b a)
      × IsSettled b a (raise_socket_exception_group b a)
unfolding raise_file_exception_group raise_socket_exception_group
raise_exception_group-IsSettled b a =
    let settled = fetched_close-IsSettled b a.fetched a.builtins a.eg_type a.exc_list a.eg in
    (settled, settled)
