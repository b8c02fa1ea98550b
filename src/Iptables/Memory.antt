-- ===== src/Iptables/Memory.antt =====
-- A client that keeps the chains in memory and has room for a number of rules: it shows that the
-- documented behaviour can be met, by a client whose Insert fails.
use teleskop.Common.{ℕ, ⊤, zero, suc, ◌≡◌, refl, Option, none, some}
use teleskop.Go.Action.{Action, pure}
use teleskop.Go.Error.{external, Outcome, ok, err}
use teleskop.Go.Text.{Text}
use teleskop.Iptables.Client.{
  IpTables, IsLawful, View, Acts, after_new_chain, after_append_unique, after_insert,
  after_clear_chain, after_delete_chain,
}

pub record Memory : Type 0 where
  pub chains : View
  pub room : ℕ

abbrev pub settle : Memory → Option View → Outcome ⊤ × Memory
settle m none = (err (external "iptables: refused"), m)
settle m (some v) = (ok tt, record m { chains = v })

unfoldable pub perform : (View → Option View) → Action Memory ⊤
perform effect m = settle m (effect m.chains)

abbrev pub use_room : ℕ → (View → Option View) → View → Outcome ⊤ × Memory
use_room zero effect v = (err (external "iptables: no room"), record { chains = v; room = zero })
use_room (suc n) effect v = settle (record { chains = v; room = n }) (effect v)

abbrev pub memory_client : IpTables
memory_client = record {
  Host = Memory;
  new = pure tt;
  new_chain = λ table name. perform (after_new_chain name);
  append_unique = λ table name rule. perform (after_append_unique name rule);
  insert = λ table name pos rule m. use_room m.room (after_insert name pos rule) m.chains;
  clear_chain = λ table name. perform (after_clear_chain name);
  delete_chain = λ table name. perform (after_delete_chain name);
}

pub settle-Acts :
    (m : Memory) (effect : View → Option View) (o : Option View)
    → effect m.chains ≡ o
    → Acts m.chains effect (settle m o).0 (settle m o).1.chains
settle-Acts m effect none e = refl
settle-Acts m effect (some v) e = e

pub perform-Acts :
    (m : Memory) (effect : View → Option View)
    → Acts m.chains effect (perform effect m).0 (perform effect m).1.chains
unfolding perform
perform-Acts m effect = settle-Acts m effect (effect m.chains) refl

pub use_room-Acts :
    (n : ℕ) (effect : View → Option View) (v : View)
    → Acts v effect (use_room n effect v).0 (use_room n effect v).1.chains
use_room-Acts zero effect v = refl
use_room-Acts (suc n) effect v =
    settle-Acts (record { chains = v; room = n }) effect (effect v) refl

abbrev pub memory_client-IsLawful : (table : Text) → IsLawful memory_client table
memory_client-IsLawful table = record {
  view = λ m. m.chains;
  new_chain_law = λ name m. perform-Acts m (after_new_chain name);
  append_unique_law = λ name rule m. perform-Acts m (after_append_unique name rule);
  insert_law = λ name pos rule m. use_room-Acts m.room (after_insert name pos rule) m.chains;
  clear_chain_law = λ name m. perform-Acts m (after_clear_chain name);
  delete_chain_law = λ name m. perform-Acts m (after_delete_chain name);
}
