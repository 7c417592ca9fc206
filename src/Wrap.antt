-- ===== src/Wrap.antt =====
-- eosio.wrap: exec (contracts/eosio.wrap/src/eosio.wrap.cpp).
mod Tests
use twig_system_contracts.Prelude.{
  ℕ, Bool, true, false, List, [], ◌∷◌, ◌≡◌, ◌↔◌, ◌∙◌, ap, refl, arith,
}
use twig_system_contracts.Chain.{
  Env, require_auth, Result, ok, check, ◌>>=◌, ◌>>◌, >>=-eq-ok, ok-injective,
}

-- The parts of the stream of arguments, which are read one after the other; an action is given
-- by its place.
pub record Stream : Type 0 where
  pub executer : Result ℕ
  pub header : Result (Unit {0})
  pub context_free_actions : Result (List ℕ)
  pub actions : Result (List ℕ)

abbrev pub is_empty : List ℕ → Bool
is_empty [] = true
is_empty (x ∷ xs) = false

-- The actions that are sent, in their order.
unfoldable pub exec : Env → Stream → Result (List ℕ)
exec e stream = do
  require_auth e e.self
  executer ← stream.executer
  require_auth e executer
  trx_header ← stream.header
  context_free_actions ← stream.context_free_actions
  check (is_empty context_free_actions)
      "not allowed to `exec` a transaction with context-free actions"
  stream.actions

empty_list : (l : List ℕ) → is_empty l ≡ true → l ≡ []
empty_list [] h = refl
empty_list (x ∷ xs) h = absurd (ground arith)

-- What `exec` asks for.
pub record Forwards (e : Env) (stream : Stream) (sent : List ℕ) : Type 0 where
  pub executer : ℕ
  pub named : stream.executer ≡ ok executer
  pub contract_signed : e.has_auth e.self ≡ true
  pub executer_signed : e.has_auth executer ≡ true
  pub readable : stream.header ≡ ok tt
  pub no_context_free : stream.context_free_actions ≡ ok []
  pub all_sent : stream.actions ≡ ok sent

exec-Forwards :
    (e : Env) (stream : Stream) (sent : List ℕ) → exec e stream ≡ ok sent → Forwards e stream sent
unfolding exec
exec-Forwards e stream sent h =
    let (_, signed, h) = >>=-eq-ok (require_auth e e.self) _ h in
    let (executer, named, h) = >>=-eq-ok stream.executer _ h in
    let (_, agreed, h) = >>=-eq-ok (require_auth e executer) _ h in
    let (_, readable, h) = >>=-eq-ok stream.header _ h in
    let (free, there, h) = >>=-eq-ok stream.context_free_actions _ h in
    let (_, none_free, h) = >>=-eq-ok (check (is_empty free) _) _ h in
    let blank : free ≡ [] = empty_list free (ground arith) in
    record {
      executer = executer;
      named = named;
      contract_signed = ground arith;
      executer_signed = ground arith;
      readable = readable;
      no_context_free = there ∙ ap ok blank;
      all_sent = h;
    }

-- Actions are forwarded exactly if the contract and the named executer have both signed and the
-- transaction can be read and has no context-free actions, and then they are the actions of the
-- transaction, all of them in their order.
exec_iff :
    (e : Env) (stream : Stream) (sent : List ℕ) → (exec e stream ≡ ok sent) ↔ Forwards e stream sent
unfolding exec
exec_iff e stream sent = (
  exec-Forwards e stream sent,
  λ f. rw (f.contract_signed, f.named, f.executer_signed, f.readable, f.no_context_free) f.all_sent,
)
