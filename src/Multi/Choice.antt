-- ===== src/Multi/Choice.antt =====
-- A `MultiConnector` as it is constructed: the policy decides, then the priority, and what was put
-- is found again.
use proxy_store.Prelude.{
  ℕ, ◌≡◌, refl, sym, ◌∙◌, ap, inl, inr, ◌⊎◌, Option-cases, Option, some, is_some, Bool, true, false,
  List,
}
use proxy_store.Prelude.Dict
use proxy_store.Prelude.Dict.{Dict}
use proxy_store.Prelude.Keys.{keys, mem-keys}
use proxy_store.Prelude.Sets.{mem}
use proxy_store.Prelude.Exec.{ok, err, multi_connector_error, map_ok, map_ok-eq-ok}
use proxy_store.Connector.{Connector, Laws}
use proxy_store.Multi.{
  le_int, Policy, is_valid, sort_names, priority_of, new_multi, connector_from_key, get, put_from,
  put,
}
use proxy_store.Multi.Routing.{put_from-Chosen, mem-sort_names, sort_names-Descending}

module _ {N T S K B : Type 0} (dec : Discrete N)
    (connectors : Dict N (Connector S K B × Policy T)) where
  priority_at :
      (name : N) (p : Connector S K B × Policy T)
      → Dict.get dec name connectors ≡ some p
      → priority_of dec connectors name ≡ p.1.priority
  unfolding priority_of
  priority_at name p e = rw (priority_of, e) refl

  named :
      (name : N) (p : Connector S K B × Policy T)
      → Dict.get dec name connectors ≡ some p
      → mem dec name (sort_names (priority_of dec connectors) (keys connectors)) ≡ true
  named name p e =
      mem-sort_names dec (priority_of dec connectors) name (keys connectors)
      ∙ mem-keys dec name connectors
      ∙ ap is_some e

  known :
      (name : N)
      → mem dec name (sort_names (priority_of dec connectors) (keys connectors)) ≡ true
      → (p : Connector S K B × Policy T) × (Dict.get dec name connectors ≡ some p)
  known name h =
      let there : is_some (Dict.get dec name connectors) ≡ true =
        sym (mem-keys dec name connectors)
        ∙ sym (mem-sort_names dec (priority_of dec connectors) name (keys connectors))
        ∙ h in
      elim (Option-cases (Dict.get dec name connectors)) [
        | inl e ↦ cc (there, e)
        | inr found ↦ found
      ]

module _ {N T S K B C : Type 0} (dec : Discrete N) (tag_dec : Discrete T) (fullmatch : T → T → Bool)
    (hostname : T) (size_of : B → ℕ) where
  put_eq :
      (connectors : Dict N (Connector S K B × Policy T)) (dormant : Option (Dict N C)) (obj : B)
      (sub sup : List T) (s : S)
      → put dec tag_dec fullmatch hostname size_of (new_multi dec connectors dormant) obj sub sup s
        ≡ put_from dec tag_dec fullmatch hostname size_of
            (new_multi dec connectors dormant)
            (sort_names (priority_of dec connectors) (keys connectors))
            obj
            sub
            sup
            s
  unfolding put new_multi
  put_eq connectors dormant obj sub sup s = refl

  -- `put` of a new `MultiConnector` raises a `MultiConnectorError`, and puts nothing, exactly if no
  -- policy allows the object. Else it puts the object in one connector whose policy allows it, with
  -- the highest priority among all that do, and its key names that connector.
  pub put-highest :
      (connectors : Dict N (Connector S K B × Policy T)) (dormant : Option (Dict N C)) (obj : B)
      (sub sup : List T) (s : S)
      → ((put dec tag_dec fullmatch hostname size_of
              (new_multi dec connectors dormant)
              obj
              sub
              sup
              s
            ≡ (err multi_connector_error, s))
          × ((name : N) (p : Connector S K B × Policy T)
              → Dict.get dec name connectors ≡ some p
              → is_valid tag_dec fullmatch hostname p.1 (some (size_of obj)) (some sub) (some sup)
                ≡ false))
        ⊎ ((name : N) × ((p : Connector S K B × Policy T) × ((Dict.get dec name connectors ≡ some p)
                × ((is_valid tag_dec fullmatch hostname p.1
                        (some (size_of obj))
                        (some sub)
                        (some sup)
                      ≡ true)
                    × ((put dec tag_dec fullmatch hostname size_of
                            (new_multi dec connectors dormant)
                            obj
                            sub
                            sup
                            s
                          ≡ (map_ok (λ key. (name, key)) ((p.0).put obj s).0, ((p.0).put obj s).1))
                        × ((other : N) (q : Connector S K B × Policy T)
                            → Dict.get dec other connectors ≡ some q
                            → is_valid tag_dec fullmatch hostname q.1
                                (some (size_of obj))
                                (some sub)
                                (some sup)
                              ≡ true
                            → le_int q.1.priority p.1.priority ≡ true))))))
  unfolding new_multi
  put-highest connectors dormant obj sub sup s =
      elim (put_from-Chosen dec tag_dec fullmatch hostname size_of
        (new_multi dec connectors dormant) obj sub sup (priority_of dec connectors)
        (sort_names (priority_of dec connectors) (keys connectors)) s
        (sort_names-Descending dec (priority_of dec connectors) (keys connectors))
        (known dec connectors)) [
          | inl (fails, none_fit) ↦ inl (
            put_eq connectors dormant obj sub sup s ∙ fails,
            λ name p e. none_fit name p (named dec connectors name p e) e,
          )
          | inr (name, (p, (e, (fits, (result, highest))))) ↦ inr (
            name,
            (
              p,
              (
                e,
                (
                  fits,
                  (
                    put_eq connectors dormant obj sub sup s ∙ result,
                    λ other q e' fits'.
                        ap (λ x. le_int x p.1.priority)
                          (sym (priority_at dec connectors other q e'))
                        ∙ ap (λ x. le_int (priority_of dec connectors other) x)
                            (sym (priority_at dec connectors name p e))
                        ∙ highest other q (named dec connectors other q e') e' fits',
                  ),
                ),
              ),
            ),
          )
        ]

  get_from :
      (connectors : Dict N (Connector S K B × Policy T)) (dormant : Option (Dict N C)) (name : N)
      (p : Connector S K B × Policy T) (key : K) (s : S)
      → Dict.get dec name connectors ≡ some p
      → get dec (new_multi dec connectors dormant) (name, key) s ≡ (p.0).get key s
  unfolding get connector_from_key new_multi
  get_from connectors dormant name p key s e = rw (get, connector_from_key, e) refl

  -- If every managed connector keeps the promises of the protocol, then the key that `put` of a new
  -- `MultiConnector` answers gives the object back.
  pub multi-get-put :
      (connectors : Dict N (Connector S K B × Policy T)) (dormant : Option (Dict N C)) (obj : B)
      (sub sup : List T) (s : S) (key : N × K)
      → ((name : N) (p : Connector S K B × Policy T)
          → Dict.get dec name connectors ≡ some p
          → Laws p.0)
      → (put dec tag_dec fullmatch hostname size_of
          (new_multi dec connectors dormant)
          obj
          sub
          sup
          s).0
        ≡ ok key
      → (get dec
          (new_multi dec connectors dormant)
          key
          (put dec tag_dec fullmatch hostname size_of
            (new_multi dec connectors dormant)
            obj
            sub
            sup
            s).1).0
        ≡ ok (some obj)
  multi-get-put connectors dormant obj sub sup s key laws done =
      elim (put-highest connectors dormant obj sub sup s) [
        | inl (fails, _) ↦ absurd (cc (sym (ap (λ r. r.0) fails) ∙ done))
        | inr (name, (p, (e, (_, (result, _))))) ↦
            let (k, gave, named_) =
              map_ok-eq-ok (λ x. (name, x)) ((p.0).put obj s).0 key
                (sym (ap (λ r. r.0) result) ∙ done) in
            let l = laws name p e in
            rw (named_, get_from connectors dormant name p k _ e, ap (λ r. r.1) result)
              (ap (λ r. r.0) (l.get_view k ((p.0).put obj s).1) ∙ ap ok (l.put_self obj s k gave))
      ]
