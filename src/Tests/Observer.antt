-- ===== src/Tests/Observer.antt =====
-- Runs of packages/observer/src.
use wendkeep.Prelude.{
  ◌≡◌, refl, none, [], ◌∷◌, ◌++◌, some-injective, subst, ◌<◌, inl, inr, arith, sort,
}
use wendkeep.Prelude.Text.{text, text_eq, text_leb, dedupe}
use wendkeep.Prelude.Result.{ok, err}
use wendkeep.Observer.Tokens.{
  resolve_observer_principal, RotateInput, rotate_observer_token, token_revoked,
}
use wendkeep.Observer.Tokens.Register.{TokenRow, TokenTable, RegisterInput, register_observer_token}
use wendkeep.Observer.Tokens.Unique.{Grown, fresh, registered, rotated}
use wendkeep.Observer.Tokens.History.{revoked_for_good}
use wendkeep.Observer.Tokens.Rotation.{rotate_takes_over}
use wendkeep.Observer.Authz.{authorized, authorize_observer_principal, role_capabilities}
use wendkeep.Observer.Authz.Laws.{authorize-resolve}
use wendkeep.Tests.Platform.{toy, toy-IsDocumented, repeat, total}

abbrev registration : RegisterInput
registration = record {
  token_id = text "t1";
  token = text "secret";
  role = text "viewer";
  project_ids = text "p" ∷ [];
  scopes = text "project:*" ∷ [];
  created_at = repeat 1 48;
  expires_at = repeat 9 48;
  rotated_from = none;
}

abbrev held : TokenRow
held = record {
  token_id = text "t1";
  token_hash = text "sha256:" ++ toy.sha256_hex (text "secret");
  role = text "viewer";
  project_ids = text "p" ∷ [];
  scopes = text "project:*" ∷ [];
  created_at = repeat 1 48;
  expires_at = repeat 9 48;
  revoked_at = none;
  rotated_from = none;
}

registers : register_observer_token toy [] registration ≡ ok (held ∷ [], held)
unfolding register_observer_token text_eq sort dedupe repeat total
registers = refl

grown : Grown toy (held ∷ [])
grown = registered registration fresh registers

abbrev rotation_input : RotateInput
rotation_input = record {
  token_id = text "t1";
  new_token_id = text "t2";
  new_token = text "others";
  rotated_at = repeat 3 48;
  expires_at = repeat 9 48;
}

new : TokenRow
unfolding rotate_observer_token
new = elim (rotate_observer_token toy (held ∷ []) rotation_input).1 [ ok row ↦ row | err e ↦ held ]

table : TokenTable
unfolding rotate_observer_token
table = (rotate_observer_token toy (held ∷ []) rotation_input).0

rotates : rotate_observer_token toy (held ∷ []) rotation_input ≡ (table, ok new)
unfolding new table text_eq sort dedupe repeat total text_leb
rotates = refl

resolves : resolve_observer_principal toy (held ∷ []) (text "secret") (repeat 2 48) ≡ ok held
unfolding resolve_observer_principal text_eq repeat total
resolves = refl

authorize-resolve_example :
    authorize_observer_principal
      (resolve_observer_principal toy (held ∷ []) (text "secret") (repeat 2 48))
      (text "p")
      (text "project:read")
    ≡ authorized
unfolding resolve_observer_principal text_eq repeat total role_capabilities
authorize-resolve_example =
    (authorize-resolve toy (held ∷ []) (text "secret") (repeat 2 48) (text "p")
        (text "project:read") 2 refl).1
      (
        text "sha256:" ++ toy.sha256_hex (text "secret"),
        held,
        refl,
        refl,
        ((λ time r e k. cc), λ e k. subst (λ n. 2 < n) (some-injective k) (omega arith)),
        (inr refl, inr refl, inl (inr (inr (text "project", text "read", refl, refl)))),
      )

rotate_takes_over_example :
    resolve_observer_principal toy table (text "secret") (repeat 4 48) ≡ err token_revoked
unfolding repeat
rotate_takes_over_example =
    (rotate_takes_over toy (held ∷ []) table rotation_input held new (text "secret") (repeat 2 48)
      (repeat 4 48) 3 4 9 toy-IsDocumented grown resolves refl rotates refl refl (omega arith)
      refl).0

abbrev next_rotation : RotateInput
next_rotation = record {
  token_id = text "t2";
  new_token_id = text "t3";
  new_token = text "third";
  rotated_at = repeat 5 48;
  expires_at = repeat 9 48;
}

refused : resolve_observer_principal toy table (text "secret") (repeat 4 48) ≡ err token_revoked
unfolding resolve_observer_principal table text_eq sort dedupe repeat total text_leb
refused = refl

revoked_for_good_example :
    resolve_observer_principal toy
      (rotate_observer_token toy table next_rotation).0
      (text "secret")
      (repeat 6 48)
    ≡ err token_revoked
unfolding repeat
revoked_for_good_example =
    (revoked_for_good toy table (rotate_observer_token toy table next_rotation).0 (text "secret")
        (repeat 4 48) (repeat 6 48) 4 6 (rotated next_rotation fresh) refl refl (omega arith)).0
      refused
