-- ===== src/Iptables/Add/Failure.antt =====
-- What is left of a chain when Insert fails in it.
use mathlib.Core.Option.{some-injective}
use mathlib.Core.Path.{subst}
use teleskop.Common.{
  ℕ, ⊤, ◌+◌, ◌≡◌, ◌⊎◌, inl, inr, refl, ap, ◌∙◌, sym, false, Option, none, some, List, [], ◌∷◌,
  eq_bytes,
}
use teleskop.Go.Action.{Action, either}
use teleskop.Go.Error.{Error, Outcome, ok, err, panic}
use teleskop.Go.Text.{Text}
use teleskop.Iptables.Client.{
  IpTables, IsLawful, Rule, View, Acts, put, stored, inserted, deleted, insert_at, after_insert,
  after_clear_chain, after_delete_chain,
}
use teleskop.Iptables.Chain.{table_filter, chain_callisto_sg, chain_callisto_forward}
use teleskop.Iptables.Effect.{put_self, put_ne}
use teleskop.Iptables.Rules.{Link}
use teleskop.Iptables.Add.{
  ignore, abandon, insert_from, insert_rules, add_sg_rules, add_input_rules, add_forward_rules,
}

-- A chain that is gone or has no rule, with the others as they were.
pub record IsLost (chain : Text) (v v' : View) : Type 0 where
  pub lost : (v' chain ≡ none) ⊎ (v' chain ≡ some [])
  pub rest : (k : Text) → eq_bytes k chain ≡ false → v' k ≡ v k

stored-rest :
    (chain : Text) (v : View) (o : Option (List Rule)) {v' : View} (k : Text)
    → stored chain v o ≡ some v'
    → eq_bytes k chain ≡ false
    → v' k ≡ v k
stored-rest chain v none k h ne = cc
stored-rest chain v (some rules) k h ne =
    ap (λ (x : View). x k) (sym (some-injective _ _ h)) ∙ put_ne v chain k _ ne

inserted-rest :
    (chain : Text) (v : View) (pos : ℕ) (rule : Rule) (o : Option (List Rule)) {v' : View}
    (k : Text)
    → inserted chain v pos rule o ≡ some v'
    → eq_bytes k chain ≡ false
    → v' k ≡ v k
inserted-rest chain v pos rule none k h ne = cc
inserted-rest chain v pos rule (some rules) k h ne =
    stored-rest chain v (insert_at pos rule rules) k h ne

deleted-IsLost :
    (chain : Text) (v : View) (o : Option (List Rule)) {v' : View}
    → deleted chain v o ≡ some v'
    → IsLost chain v v'
deleted-IsLost chain v none h = cc
deleted-IsLost chain v (some []) h =
    let same = some-injective _ _ h in
    record {
      lost = inl (ap (λ (x : View). x chain) (sym same) ∙ put_self v chain none);
      rest = λ k ne. ap (λ (x : View). x k) (sym same) ∙ put_ne v chain k _ ne;
    }
deleted-IsLost chain v (some (r ∷ rules)) h = cc

module _ (client : IpTables) (laws : IsLawful client table_filter) (chain : Text)
    (clears : (w : client.Host) → (client.clear_chain table_filter chain w).0 ≡ ok tt) where
  open client use {Host}
  open laws use {view}

  -- After the chain is cleared it is empty; it stays lost whatever DeleteChain does.
  after_delete :
      (r : Outcome ⊤) (v v' : View)
      → v chain ≡ some []
      → Acts v (after_delete_chain chain) r v'
      → IsLost chain v v'
  unfolding after_delete_chain
  after_delete (ok a) v v' empty acts = deleted-IsLost chain v (v chain) acts
  after_delete (err e) v v' empty acts = record {
    lost = inr (ap (λ (x : View). x chain) acts ∙ empty);
    rest = λ k ne. ap (λ (x : View). x k) acts;
  }
  after_delete panic v v' empty acts = elim acts [ ]

  ignored :
      (r : Outcome ⊤) (w : Host) (v : View) (f : View → Option View)
      → Acts v f r (view w)
      → either r (λ _ x. (ok tt, x)) (λ a x. (ok a, x)) w ≡ (ok tt, w)
  ignored (ok a) w v f acts = refl
  ignored (err e) w v f acts = refl
  ignored panic w v f acts = elim acts [ ]

  -- Both calls of the cleaning up are made, whatever they return.
  abandon_host :
      (e : Error) (w : Host)
      → (abandon client chain e w).1
        ≡ (client.delete_chain table_filter chain (client.clear_chain table_filter chain w).1).1
  unfolding abandon ignore
  abandon_host e w =
      let w1 = (client.clear_chain table_filter chain w).1 in
      rw (ignored _ w1 (view w) (after_clear_chain chain) (laws.clear_chain_law chain w)) (
        rw (
          ignored _ (client.delete_chain table_filter chain w1).1 (view w1)
            (after_delete_chain chain) (laws.delete_chain_law chain w1)))

  cleared :
      (r : Outcome ⊤) (v v' : View)
      → r ≡ ok tt
      → Acts v (after_clear_chain chain) r v'
      → v' ≡ put v chain (some [])
  unfolding after_clear_chain
  cleared (ok a) v v' done acts = sym (some-injective _ _ acts)
  cleared (err e) v v' done acts = cc
  cleared panic v v' done acts = cc

  abandon-IsLost :
      (e : Error) (w : Host) → IsLost chain (view w) (view (abandon client chain e w).1)
  abandon-IsLost e w =
      let w1 = (client.clear_chain table_filter chain w).1 in
      let made = cleared _ (view w) (view w1) (clears w) (laws.clear_chain_law chain w) in
      let gone =
        after_delete _ (view w1) _ (rw made (put_self (view w) chain (some [])))
          (laws.delete_chain_law chain w1) in
      rw (abandon_host e w) (record {
        lost = gone.lost;
        rest = λ k ne. gone.rest k ne ∙ rw made (put_ne (view w) chain k _ ne);
      })

  insert_step :
      (r : Outcome ⊤) (w : Host) (pos : ℕ) (rule : Rule) (rules : List Rule) (v : View) (e : Error)
      → ((w : Host) (e : Error)
          → (insert_from client chain (pos + 1) rules w).0 ≡ err e
          → IsLost chain (view w) (view (insert_from client chain (pos + 1) rules w).1))
      → Acts v (after_insert chain pos rule) r (view w)
      → (either r (abandon client chain) (λ _. insert_from client chain (pos + 1) rules) w).0
        ≡ err e
      → IsLost chain v (
          view
            (either r (abandon client chain) (λ _. insert_from client chain (pos + 1) rules) w).1)
  unfolding after_insert
  insert_step (ok a) w pos rule rules v e ih acts h =
      let later = ih w e h in
      record {
        lost = later.lost;
        rest = λ k ne. later.rest k ne ∙ inserted-rest chain v pos rule (v chain) k acts ne;
      }
  insert_step (err x) w pos rule rules v e ih acts h =
      subst (λ (u : View). IsLost chain u (view (abandon client chain x w).1)) acts
        (abandon-IsLost x w)
  insert_step panic w pos rule rules v e ih acts h = cc

  insert_from-IsLost :
      (pos : ℕ) (rules : List Rule) (w : Host) (e : Error)
      → (insert_from client chain pos rules w).0 ≡ err e
      → IsLost chain (view w) (view (insert_from client chain pos rules w).1)
  unfolding insert_from
  insert_from-IsLost pos [] w e h = cc
  insert_from-IsLost pos (rule ∷ rules) w e h =
      insert_step _ (client.insert table_filter chain pos rule w).1 pos rule rules (view w) e
        (insert_from-IsLost (pos + 1) rules) (laws.insert_law chain pos rule w) h

-- The three functions that insert into a chain which all interfaces share.
pub data Shared : Type 0 where
  sg input forward : Shared

abbrev pub chain_of : Shared → Text
chain_of sg = chain_callisto_sg
chain_of input = chain_callisto_forward
chain_of forward = chain_callisto_forward

abbrev pub add_shared : (client : IpTables) → Shared → Link → Action client.Host ⊤
add_shared client sg = add_sg_rules client
add_shared client input = add_input_rules client
add_shared client forward = add_forward_rules client

-- Where ClearChain works, a failed call of addSGRules, addINPUTRules or addFORWARDRules leaves the shared
-- chain that it inserts into without any rule, those of the other interfaces included. The other chains
-- are as before.
pub add_shared-IsLost :
    (client : IpTables) (laws : IsLawful client table_filter) (f : Shared) (intf : Link)
    (w : client.Host) (e : Error)
    → ((chain : Text) (x : client.Host) → (client.clear_chain table_filter chain x).0 ≡ ok tt)
    → (add_shared client f intf w).0 ≡ err e
    → IsLost (chain_of f) (laws.view w) (laws.view (add_shared client f intf w).1)
unfolding add_sg_rules add_input_rules add_forward_rules insert_rules
add_shared-IsLost client laws sg intf w e clears =
    insert_from-IsLost client laws chain_callisto_sg (clears chain_callisto_sg) 1 _ w e
add_shared-IsLost client laws input intf w e clears =
    insert_from-IsLost client laws chain_callisto_forward (clears chain_callisto_forward) 1 _ w e
add_shared-IsLost client laws forward intf w e clears =
    insert_from-IsLost client laws chain_callisto_forward (clears chain_callisto_forward) 1 _ w e
