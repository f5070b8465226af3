-- ===== src/HomeAssistant/Link/Talks.antt =====
-- How the operations of a link extend what it has said, and what they leave as it was. The topic of
-- the device's availability is written by `publish_presence` alone.
use heliobridge.Base.{
  ℕ, ◌≡◌, ◌≢◌, refl, sym, ap, ◌∙◌, subst, Bool, true, false, Option, none, some, List, [], ◌∷◌,
  ◌++◌, map, All, All-append, if◌then◌else◌, arith, Bool-cases, inl, inr, ==-self,
}
use heliobridge.Base.Dict.{eq_of_same_text}
use heliobridge.Base.Text.{codes}
use heliobridge.Base.Text.Parsing.{same_text}
use heliobridge.HomeAssistant.Entity.{Entity, Component, component_name}
use heliobridge.HomeAssistant.Entity.Catalogue.{EntityCatalogue, entities}
use heliobridge.HomeAssistant.State.{StatePayload}
use heliobridge.HomeAssistant.Topics.{
  Source, discovery, device_availability, entity_availability, shared, field, source_name,
}
use heliobridge.HomeAssistant.Views.{IdentityView}
use heliobridge.HomeAssistant.Link.{describes, Publication, retained, Surroundings, Link}
use heliobridge.HomeAssistant.Link.Says.{
  publish, publish_over, announce_if, device_block, catalogue_of, gone, publish_all, publish_object,
  withdrawal, discovery_of, announce_anew, announce,
}
use mathlib.Core.List.{append-nil, append_assoc}

-- Two texts with a common front.
same_text-front : (p a b : List ℕ) → same_text (p ++ a) (p ++ b) ≡ same_text a b
unfolding same_text
same_text-front [] a b = refl
same_text-front (x ∷ p) a b = rw (==-self x) (same_text-front p a b)

-- the last character of a text that has one
last : ℕ → List ℕ → ℕ
last before [] = before
last before (a ∷ rest) = last a rest

last-append :
    (before : ℕ) (xs : List ℕ) (y : ℕ) (ys : List ℕ) → last before (xs ++ (y ∷ ys)) ≡ last y ys
unfolding last
last-append before [] y ys = refl
last-append before (x ∷ xs) y ys = last-append x xs y ys

same_text-apart : (a b : List ℕ) → (a ≢ b) → same_text a b ≡ false
same_text-apart a b h = elim (Bool-cases (same_text a b)) [
  | inl e ↦ absurd (h (eq_of_same_text a b e))
  | inr e ↦ e
]

module _ (w : Surroundings) where
  abbrev pub presence_topic : List ℕ
  presence_topic = device_availability w.topics w.device

  front : List ℕ
  front = w.topics.base ++ (0x2f ∷ (w.device ++ (0x2f ∷ [])))

  shared-front :
      (s : Source) (rest : List ℕ)
      → shared w.topics s w.device ++ rest ≡ front ++ (source_name s ++ rest)
  unfolding shared front
  shared-front s rest = simp append_assoc

  presence-front : presence_topic ≡ front ++ codes "availability"
  unfolding device_availability front
  presence-front = simp append_assoc

  entity-front :
      (key : List ℕ)
      → entity_availability w.topics w.device key ≡ front ++ (codes "availability" ++ (0x2f ∷ key))
  unfolding entity_availability front
  entity-front key = simp append_assoc

  source_name-apart :
      (s : Source) (rest : List ℕ)
      → same_text (source_name s ++ rest) (codes "availability") ≡ false
  unfolding same_text source_name
  source_name-apart Source.telemetry rest = refl
  source_name-apart Source.settings rest = refl
  source_name-apart Source.status rest = refl
  source_name-apart Source.config rest = refl

  abbrev pub IsElsewhere : List ℕ → Type 0
  IsElsewhere topic = same_text topic presence_topic ≡ false

  shared_rest-IsElsewhere :
      (s : Source) (rest : List ℕ) → IsElsewhere (shared w.topics s w.device ++ rest)
  shared_rest-IsElsewhere s rest =
      rw (shared-front s rest, presence-front, same_text-front front) (source_name-apart s rest)

  pub shared-IsElsewhere : (s : Source) → IsElsewhere (shared w.topics s w.device)
  shared-IsElsewhere s =
      subst IsElsewhere (append-nil (shared w.topics s w.device)) (shared_rest-IsElsewhere s [])

  pub field-IsElsewhere : (s : Source) (key : List ℕ) → IsElsewhere (field w.topics s w.device key)
  unfolding field
  field-IsElsewhere s key = shared_rest-IsElsewhere s (0x2f ∷ key)

  pub entity-IsElsewhere : (key : List ℕ) → IsElsewhere (entity_availability w.topics w.device key)
  entity-IsElsewhere key =
      rw (entity-front key, presence-front, same_text-front front) (unfold same_text in refl)

  last-discovery : (c k : List ℕ) → last 0 (discovery w.topics c w.device k) ≡ b'g'
  unfolding discovery
  last-discovery c k = rw (last-append, last-append, last-append, last-append) (unfold last in refl)

  last-presence : last 0 presence_topic ≡ b'y'
  unfolding device_availability
  last-presence = rw (last-append, last-append) (unfold last in refl)

  discovery-IsElsewhere : (c k : List ℕ) → IsElsewhere (discovery w.topics c w.device k)
  discovery-IsElsewhere c k =
      same_text-apart _ _
        λ e. absurd (omega (arith, ap (last 0) e, last-discovery c k, last-presence))

  -- A publication that is not about the device's availability.
  abbrev pub IsApart : Publication → Type 0
  IsApart p = IsElsewhere p.topic

  -- What an operation does to a link that says nothing about the device's availability: it says
  -- more, and nothing at all before the broker was reached.
  pub record Talks (l m : Link) : Type 0 where
    pub more : List Publication
    pub grown : m.said ≡ l.said ++ more
    pub apart : All IsApart more
    pub silent : l.published_for ≡ none → more ≡ []
    pub present : m.present ≡ l.present
    pub published_for : m.published_for ≡ l.published_for
    pub arrived : m.arrived ≡ l.arrived

  pub Talks-refl : (l : Link) → Talks l l
  Talks-refl l = record {
    more = [];
    grown = sym (append-nil l.said);
    apart = tt;
    silent = λ n. refl;
    present = refl;
    published_for = refl;
    arrived = refl;
  }

  pub Talks-trans : {l m n : Link} → Talks l m → Talks m n → Talks l n
  Talks-trans {l} {m} {n} a b = record {
    more = a.more ++ b.more;
    grown = b.grown ∙ rw a.grown (append_assoc l.said a.more b.more);
    apart = All-append IsApart a.more b.more a.apart b.apart;
    silent = λ h. rw (a.silent h, b.silent (a.published_for ∙ h));
    present = b.present ∙ a.present;
    published_for = b.published_for ∙ a.published_for;
    arrived = b.arrived ∙ a.arrived;
  }

  publish_over-Talks :
      (o : Option ℕ) (p : Publication) (l : Link)
      → l.published_for ≡ o
      → IsApart p
      → Talks l (publish_over o p l)
  unfolding publish_over
  publish_over-Talks none p l e h = Talks-refl l
  publish_over-Talks (some g) p l e h = record {
    more = p ∷ [];
    grown = refl;
    apart = (h, tt);
    silent = λ n. absurd (ground arith);
    present = refl;
    published_for = refl;
    arrived = refl;
  }

  pub publish-Talks : (p : Publication) (l : Link) → IsApart p → Talks l (publish w p l)
  unfolding publish
  publish-Talks p l h = publish_over-Talks l.published_for p l refl h

  publish_all-Talks :
      (ps : List Publication) (l : Link) → All IsApart ps → Talks l (publish_all w ps l)
  unfolding publish_all
  publish_all-Talks [] l h = Talks-refl l
  publish_all-Talks (p ∷ ps) l h =
      Talks-trans (publish-Talks p l h.0) (publish_all-Talks ps (publish w p l) h.1)

  pub publish_object-Talks :
      (object : StatePayload) (as_publication : List ℕ → Publication) (l : Link)
      → ((payload : List ℕ) → IsApart (as_publication payload))
      → Talks l (publish_object w object as_publication l)
  unfolding publish_object
  publish_object-Talks [] as_publication l h = Talks-refl l
  publish_object-Talks (entry ∷ object) as_publication l h =
      publish-Talks (as_publication _) l (h _)

  withdrawals-IsApart : (gone : List (Component × List ℕ)) → All IsApart (map (withdrawal w) gone)
  unfolding withdrawal retained
  withdrawals-IsApart [] = tt
  withdrawals-IsApart ((c, k) ∷ gone) =
      (discovery-IsElsewhere (component_name c) k, withdrawals-IsApart gone)

  documents-IsApart :
      (report : Option IdentityView) (es : List Entity)
      → All IsApart (map (discovery_of w (device_block w report)) es)
  unfolding discovery_of retained device_block
  documents-IsApart report [] = tt
  documents-IsApart report (e ∷ es) =
      (discovery-IsElsewhere (component_name e.component) e.key, documents-IsApart report es)

  announce_anew-Talks :
      (report : Option IdentityView) (c : EntityCatalogue) (l : Link)
      → Talks l (announce_anew w (device_block w report) c l)
  unfolding announce_anew
  announce_anew-Talks report c l =
      let es = entities c w.catalogue in
      let said : All IsApart (
          map (withdrawal w) (gone w l.announced es)
          ++ map (discovery_of w (device_block w report)) es) =
        All-append IsApart _ _ (withdrawals-IsApart (gone w l.announced es))
          (documents-IsApart report es) in
      let t = publish_all-Talks _ l said in
      record {
        more = t.more;
        grown = t.grown;
        apart = t.apart;
        silent = t.silent;
        present = t.present;
        published_for = t.published_for;
        arrived = t.arrived;
      }

  pub if-Talks : {l m n : Link} (b : Bool) → Talks l m → Talks l n → Talks l (if b then m else n)
  if-Talks true x y = x
  if-Talks false x y = y

  announce_if-Talks : (o : Option ℕ) (l : Link) → Talks l (announce_if w o l)
  unfolding announce_if
  announce_if-Talks none l = Talks-refl l
  announce_if-Talks (some g) l =
      if-Talks (describes l.announced (device_block w l.identity) (catalogue_of w l)) (Talks-refl l)
        (announce_anew-Talks l.identity (catalogue_of w l) l)

  pub announce-Talks : (l : Link) → Talks l (announce w l)
  unfolding announce
  announce-Talks l = announce_if-Talks l.published_for l
