-- ===== src/Hashtable/Release.antt =====
-- What the caller's `free_func` does with an object, and that a table without the object survives it.
use hashtable_linux_kernel.Common.{
  ℕ, ◌^◌, ◌≡◌, ◌≢◌, ◌<◌, true, false, List, ◌∷◌, arith, ◌∉◌, Cmd, Returns, subst,
}
use mathlib.Core.Path.{fun_ext}
use hashtable_linux_kernel.Links.{Addr, update}
use hashtable_linux_kernel.HLinks.{HLinks}
use hashtable_linux_kernel.HList.Chain.{Chain, HSeg-frame}
use hashtable_linux_kernel.Hashtable.{bucket_at, Tables}
use hashtable_linux_kernel.Hashtable.Buckets.{IsTable, objects}

-- The object of the node `x` is given back; nothing else is.
pub record Released (x : Addr) (w g : Tables) : Type 0 where
  pub node_live : (a : Addr) → g.chains.node_live a ≡ update w.chains.node_live x false a
  pub head_live : (a : Addr) → g.chains.head_live a ≡ w.chains.head_live a
  pub next : (a : Addr) → a ≢ x → g.chains.next a ≡ w.chains.next a
  pub pprev : (a : Addr) → a ≢ x → g.chains.pprev a ≡ w.chains.pprev a
  pub rest : g ≡ record w { chains = g.chains }

-- A function that frees the object of a live node.
abbrev pub Frees : (Addr → Cmd Tables (Unit {0})) → Type 0
Frees free_func =
    (x : Addr) (w : Tables)
    → w.chains.node_live x ≡ true
    → Returns (λ _ g. Released x w g) (free_func x w)

-- Two tables with the same nodes in each bucket.
pub IsTable-ext :
    {m : HLinks} {table bits : ℕ} {buckets buckets' : ℕ → List Addr}
    → ((i : ℕ) → buckets i ≡ buckets' i)
    → IsTable m table bits buckets
    → IsTable m table bits buckets'
IsTable-ext {m} {table} {bits} same is = subst (IsTable m table bits) (fun_ext same) is

module _ {x : Addr} {w g : Tables} (r : Released x w g) where
  Released-Chain :
      (h : Addr) (xs : List Addr) → x ∉ h ∷ xs → Chain w.chains h xs → Chain g.chains h xs
  Released-Chain h xs out c = record {
    seg =
        HSeg-frame w.chains g.chains h xs (λ a o. r.next a (ground (arith, out)))
          (λ a o. r.pprev a (ground (arith, out))) c.seg;
    distinct = c.distinct;
    non_null = c.non_null;
    nodes = λ a o. ground (arith, r.node_live a, c.nodes a, out);
    head = ground (arith, r.head_live h, c.head);
  }

  -- A table that does not hold the object survives its release.
  pub Released-IsTable :
      {table bits : ℕ} {buckets : ℕ → List Addr}
      → ((i : ℕ) → i < 2 ^ bits → x ∉ objects table buckets i)
      → IsTable w.chains table bits buckets
      → IsTable g.chains table bits buckets
  Released-IsTable {table} {bits} {buckets} out is = record {
    chain = λ i lt. Released-Chain (bucket_at table i) (buckets i) (out i lt) (is.chain i lt);
    apart = is.apart;
  }
