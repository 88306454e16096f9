-- ===== src/Hashtable/Callback.antt =====
-- What the loops that free a table rely on: the caller's state, of which the tables are a part, and the
-- caller's function, which frees one object after the other.
use hashtable_linux_kernel.Common.{
  ◌≡◌, refl, ap, ◌∙◌, true, List, [], ◌∷◌, Cmd, Returns, ok, Returns-mono,
}
use hashtable_linux_kernel.Links.{Addr}
use hashtable_linux_kernel.HLinks.{HLinks}
use hashtable_linux_kernel.Hashtable.{Tables, in_tables}
use hashtable_linux_kernel.Hashtable.Release.{Released, Frees}

-- The tables in the caller's state: how they are read and replaced, and that commands on them run in
-- the state.
pub record TablesIn (S : Type 0) (on_tables : (A : Type 0) → Cmd Tables A → Cmd S A) : Type 1 where
  pub tables : S → Tables
  pub put : Tables → S → S
  pub runs :
      (A : Type 0) (c : Cmd Tables A) (s : S) (a : A) (t : Tables)
      → c (tables s) ≡ ok a t
      → on_tables A c s ≡ ok a (put t s)
  pub tables-put : (t : Tables) (s : S) → tables (put t s) ≡ t
  pub put-tables : (s : S) → put (tables s) s ≡ s

-- A command that reads leaves the state.
pub reads :
    (S : Type 0) (on_tables : (A : Type 0) → Cmd Tables A → Cmd S A) (part : TablesIn S on_tables)
    (A : Type 0) (c : Cmd Tables A) (s : S) (a : A)
    → c (part.tables s) ≡ ok a (part.tables s)
    → on_tables A c s ≡ ok a s
reads S on_tables part A c s a e =
    part.runs A c s a (part.tables s) e ∙ ap (ok a) (part.put-tables s)

-- The function frees the objects `xs` in turn: `Ready xs s` says that it can in the state `s`. The list
-- functions that run in between change the chains alone, and what runs behind the last object changes
-- the tables alone.
pub record FreesAll (S : Type 0) (on_tables : (A : Type 0) → Cmd Tables A → Cmd S A)
    (part : TablesIn S on_tables) (free_func : Addr → Cmd S (Unit {0}))
    (Ready : List Addr → S → Type 0) : Type 0 where
  pub frees :
      (x : Addr) (xs : List Addr) (s : S)
      → (part.tables s).chains.node_live x ≡ true
      → Ready (x ∷ xs) s
      → Returns (λ _ g. Released x (part.tables s) (part.tables g) × Ready xs g) (free_func x s)
  pub relinked :
      (xs : List Addr) (s : S) (m : HLinks)
      → ((a : Addr) → m.node_live a ≡ (part.tables s).chains.node_live a)
      → Ready xs s
      → Ready xs (part.put (record (part.tables s) { chains = m }) s)
  pub after : (s : S) (t : Tables) → Ready [] s → Ready [] (part.put t s)

-- The state that is the tables themselves.
abbrev pub all_tables : TablesIn Tables in_tables
all_tables = record {
  tables = λ s. s;
  put = λ t s. t;
  runs = λ A c s a t e. e;
  tables-put = λ t s. refl;
  put-tables = λ s. refl;
}

-- A function that frees any live object.
pub Frees-FreesAll :
    (free_func : Addr → Cmd Tables (Unit {0}))
    → Frees free_func
    → FreesAll Tables in_tables all_tables free_func (λ xs s. Unit)
Frees-FreesAll free_func f = record {
  frees = λ x xs s live r. Returns-mono (f x s live) (λ _ g p. (p, tt));
  relinked = λ xs s m same r. tt;
  after = λ s t r. tt;
}
