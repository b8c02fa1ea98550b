-- ===== src/Iptables/Guard/Calls.antt =====
-- The calls of go-iptables within the guard.
use mathlib.Core.Option.{some-injective}
use teleskop.Common.{ℕ, ⊤, ◌≡◌, refl, sym, Option, some, none, List, [], ◌∷◌}
use teleskop.Go.Error.{Outcome, ok, err, panic}
use teleskop.Go.Moves.{IsPreorder, Moves}
use teleskop.Go.Text.{Text}
use teleskop.Iptables.Chain.{table_filter}
use teleskop.Iptables.Client.{
  IpTables, IsLawful, Rule, View, Acts, put, stored, inserted, deleted, insert_at, after_new_chain,
  after_append_unique, after_insert, after_clear_chain, after_delete_chain,
}
use teleskop.Iptables.Effect.{after_new_chain-some, after_append_unique-some}
use teleskop.Iptables.Guard.{
  IsGuarded, IsGuarded-same, IsGuarded-trans, IsOwn, IsGuarded-put, IsGuarded-append,
}
use teleskop.Iptables.Guard.Names.{IsKnown}

-- The effects that write one chain.
abbrev Writes : Text → View → View → Type 0
Writes name v v' = (r : Option (List Rule)) × (v' ≡ put v name r)

stored-Writes :
    (name : Text) (v v' : View) (o : Option (List Rule))
    → stored name v o ≡ some v'
    → Writes name v v'
stored-Writes name v v' none h = cc
stored-Writes name v v' (some rules) h = (some rules, sym (some-injective _ _ h))

inserted-Writes :
    (name : Text) (v v' : View) (pos : ℕ) (rule : Rule) (o : Option (List Rule))
    → inserted name v pos rule o ≡ some v'
    → Writes name v v'
inserted-Writes name v v' pos rule none h = cc
inserted-Writes name v v' pos rule (some rules) h =
    stored-Writes name v v' (insert_at pos rule rules) h

deleted-Writes :
    (name : Text) (v v' : View) (o : Option (List Rule))
    → deleted name v o ≡ some v'
    → Writes name v v'
deleted-Writes name v v' none h = cc
deleted-Writes name v v' (some []) h = (none, sym (some-injective _ _ h))
deleted-Writes name v v' (some (r ∷ rules)) h = cc

Writes-IsGuarded : (name : Text) (v v' : View) → IsOwn name → Writes name v v' → IsGuarded v v'
Writes-IsGuarded name v v' own (r, e) = rw e (IsGuarded-put v name r own)

-- A call that acts, whose effect is guarded.
Acts-IsGuarded :
    (o : Outcome ⊤) (v v' : View) (effect : View → Option View)
    → ((u : View) → effect v ≡ some u → IsGuarded v u)
    → Acts v effect o v'
    → IsGuarded v v'
Acts-IsGuarded (ok a) v v' effect guarded acts = guarded v' acts
Acts-IsGuarded (err e) v v' effect guarded acts = IsGuarded-same v v' acts
Acts-IsGuarded panic v v' effect guarded acts = elim acts [ ]

module _ (client : IpTables) (laws : IsLawful client table_filter) where
  open client use {Host}
  open laws use {view}

  abbrev pub Guarded : Host → Host → Type 0
  Guarded w w' = IsGuarded (view w) (view w')

  abbrev pub order : IsPreorder Guarded
  order = record {
    stay = λ w. IsGuarded-same (view w) (view w) refl;
    go_on = λ u v w h h'. IsGuarded-trans (view u) (view v) (view w) h h';
  }

  pub new_chain-Moves :
      (name : Text) → IsOwn name → Moves Guarded (client.new_chain table_filter name)
  new_chain-Moves name own = record {
    at = λ w.
        Acts-IsGuarded _ (view w) _ (after_new_chain name)
          (λ u h.
            Writes-IsGuarded name (view w) u own
              (some [], (after_new_chain-some name (view w) h).1))
          (laws.new_chain_law name w);
  }

  pub append_unique-Moves :
      (name : Text) (rule : Rule)
      → IsKnown name
      → Moves Guarded (client.append_unique table_filter name rule)
  append_unique-Moves name rule known = record {
    at = λ w.
        Acts-IsGuarded _ (view w) _ (after_append_unique name rule)
          (λ u h.
            let (old, found, e) = after_append_unique-some name rule (view w) h in
            rw e (IsGuarded-append (view w) name rule old found known))
          (laws.append_unique_law name rule w);
  }

  pub insert-Moves :
      (name : Text) (pos : ℕ) (rule : Rule)
      → IsOwn name
      → Moves Guarded (client.insert table_filter name pos rule)
  unfolding after_insert
  insert-Moves name pos rule own = record {
    at = λ w.
        Acts-IsGuarded _ (view w) _ (after_insert name pos rule)
          (λ u h.
            Writes-IsGuarded name (view w) u own
              (inserted-Writes name (view w) u pos rule (view w name) h))
          (laws.insert_law name pos rule w);
  }

  pub clear_chain-Moves :
      (name : Text) → IsOwn name → Moves Guarded (client.clear_chain table_filter name)
  unfolding after_clear_chain
  clear_chain-Moves name own = record {
    at = λ w.
        Acts-IsGuarded _ (view w) _ (after_clear_chain name)
          (λ u h. Writes-IsGuarded name (view w) u own (some [], sym (some-injective _ _ h)))
          (laws.clear_chain_law name w);
  }

  pub delete_chain-Moves :
      (name : Text) → IsOwn name → Moves Guarded (client.delete_chain table_filter name)
  unfolding after_delete_chain
  delete_chain-Moves name own = record {
    at = λ w.
        Acts-IsGuarded _ (view w) _ (after_delete_chain name)
          (λ u h.
            Writes-IsGuarded name (view w) u own (deleted-Writes name (view w) u (view w name) h))
          (laws.delete_chain_law name w);
  }
