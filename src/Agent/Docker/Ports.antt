-- ===== src/Agent/Docker/Ports.antt =====
-- The ports of a task as bindings, and back.
use sco.Common.{
  ◌≡◌, ◌≢◌, refl, sym, ap, ◌∙◌, List, [], ◌∷◌, ◌++◌, some, All, if_neg, append-nil, append_assoc,
}
use sco.Common.Decimal.{decimal}
use sco.Common.Dict.{Key, text_key, same, insert, Absent, IsMap}
use sco.Common.Result.{ok}
use sco.Common.Text.{Text, codes}
use sco.Agent.DockerClient.{PortBinding, Conversions}
use sco.Agent.Docker.{loopback, bind_ports, exposed_into}

-- A new key is put at the end.
insert-Absent :
    {K V : Type 0} ⦃e : Key K⦄ (k : K) (v : V) (m : List (K × V))
    → Absent k m
    → insert k v m ≡ m ++ (k, v) ∷ []
unfolding insert
insert-Absent k v [] h = refl
insert-Absent k v ((j, w) ∷ m) h =
    rw (if_neg (same j k) h.0) (ap (λ r. (j, w) ∷ r) (insert-Absent k v m h.1))

Absent-append :
    {K V : Type 0} ⦃e : Key K⦄ (k j : K) (v : V) (m : List (K × V))
    → Absent k m
    → j ≢ k
    → Absent k (m ++ (j, v) ∷ [])
Absent-append k j v [] h ne = (ne, tt)
Absent-append k j v ((i, w) ∷ m) h ne = (h.0, Absent-append k j v m h.1 ne)

abbrev pub no_ports : List (Text × Text)
no_ports = []

module _ {F P : Type 0} (go : Conversions F P) where
  -- ParsePort takes the key of a port for the number that it is the decimal of.
  abbrev pub IsCanonical : Text → Type 0
  IsCanonical k =
      (port : P) × (go.parse_port (k ++ codes "/tcp") ≡ some port) × (decimal (go.num port) ≡ k)

module _ {F P : Type 0} ⦃port_key : Key P⦄ (go : Conversions F P) where
  -- The port of a key is not bound yet.
  abbrev pub Fresh : List (P × List PortBinding) → Text × Text → Type 0
  Fresh bindings p =
      (port : P) → go.parse_port (p.0 ++ codes "/tcp") ≡ some port → Absent port bindings

  pub all-Fresh : (ports : List (Text × Text)) → All (Fresh []) ports
  all-Fresh [] = tt
  all-Fresh (p ∷ ports) = ((λ q _. tt), all-Fresh ports)

  pub all-Absent : (ports : List (Text × Text)) → All (λ p. Absent p.0 no_ports) ports
  all-Absent [] = tt
  all-Absent (p ∷ ports) = (tt, all-Absent ports)

  abbrev bound : Text → List PortBinding
  bound host_port = record { host_ip = loopback; host_port = host_port } ∷ []

  -- A port with another key is still not bound.
  Fresh-append :
      (k : Text) (port : P) (v : List PortBinding) (bindings : List (P × List PortBinding))
      (ports : List (Text × Text))
      → decimal (go.num port) ≡ k
      → Absent k ports
      → All (λ p. IsCanonical go p.0) ports
      → All (Fresh bindings) ports
      → All (Fresh (bindings ++ (port, v) ∷ [])) ports
  Fresh-append k port v bindings [] e h c f = tt
  Fresh-append k port v bindings ((j, w) ∷ ports) e h c f = (
    λ q parsed. Absent-append q port v bindings (f.0 q parsed) (λ same_port.
        let own : c.0.0 ≡ q = cc (c.0.1) in
        h.0 (sym c.0.2 ∙ (ap (λ r. decimal (go.num r)) (own ∙ sym same_port) ∙ e))),
    Fresh-append k port v bindings ports e h.1 c.1 f.1,
  )

  Absent-grow :
      (k v : Text) (exposed ports : List (Text × Text))
      → Absent k ports
      → All (λ p. Absent p.0 exposed) ports
      → All (λ p. Absent p.0 (exposed ++ (k, v) ∷ [])) ports
  Absent-grow k v exposed [] h a = tt
  Absent-grow k v exposed ((j, w) ∷ ports) h a =
      (Absent-append j k v exposed a.0 (λ e. h.0 (sym e)), Absent-grow k v exposed ports h.1 a.1)

  -- What the loop of convertPortBindings adds, the loop of GetTaskInfo reads back.
  pub bind_ports-exposed :
      (ports : List (Text × Text)) (bindings : List (P × List PortBinding))
      → IsMap ports
      → All (λ p. IsCanonical go p.0) ports
      → All (Fresh bindings) ports
      → (more : List (P × List PortBinding)) × (bind_ports go ports bindings
          ≡ ok (bindings ++ more))
        × ((exposed : List (Text × Text))
            → All (λ p. Absent p.0 exposed) ports
            → exposed_into go more exposed ≡ exposed ++ ports)
  unfolding bind_ports exposed_into
  bind_ports-exposed [] bindings m c f =
      ([], ap ok (sym (append-nil bindings)), λ exposed a. sym (append-nil exposed))
  bind_ports-exposed ((k, v) ∷ ports) bindings m c f =
      let (port, parsed, name) = c.0 in
      let grown = bindings ++ (port, bound v) ∷ [] in
      let (more, ran, back) =
        bind_ports-exposed ports grown m.1 c.1
          (Fresh-append k port (bound v) bindings ports name m.0 c.1 f.1) in
      (
        (port, bound v) ∷ more,
        rw (parsed, bind_ports)
            (ap (bind_ports go ports) (insert-Absent port (bound v) bindings (f.0 port parsed))
              ∙ (ran ∙ ap ok (append_assoc bindings ((port, bound v) ∷ []) more))),
        λ exposed a.
            ap (exposed_into go more)
              (ap (λ j. insert j v exposed) name ∙ insert-Absent k v exposed a.0)
            ∙ (back (exposed ++ (k, v) ∷ []) (Absent-grow k v exposed ports m.0 a.1)
                ∙ append_assoc exposed ((k, v) ∷ []) ports),
      )
