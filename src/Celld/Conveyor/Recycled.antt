-- ===== src/Celld/Conveyor/Recycled.antt =====
-- A part that celld/conveyor.hpp sends back to the head of the line stays there.
use robonode.Prelude.{◌≡◌, refl, ◌∙◌, ap, sym, false, some, Text, bytes}
use robonode.Core.Double.{Double}
use robonode.Core.Result.{success}
use robonode.Core.Geometry.{Vec3}
use robonode.Program.Station.{StationSpec, Numbers}
use robonode.Celld.Conveyor.{
  Scene, config_text, past_the_end, delivery, deliver_at, recirculate_from, recirculate,
}

abbrev pub part_site : StationSpec → Text
part_site spec = config_text (bytes "workpiece") spec

abbrev pub head_site : StationSpec → Text
head_site spec = config_text (bytes "start_site") spec

abbrev pub end_site : StationSpec → Text
end_site spec = config_text (bytes "end_site") spec

module _ {ℓ κ} {W : Type ℓ} {S : Type κ} ⦃d : Double W⦄ (numbers : Numbers W) (scene : Scene W S)
    (spec : StationSpec) where
  -- A body is where it was placed, and the sites of the line do not move.
  pub record IsLine : Type (ℓ ⊔ κ) where
    pub placed :
        (pos : Vec3 W) (s s' : S)
        → scene.place_body (part_site spec) pos s ≡ (s', success)
        → scene.site (part_site spec) s' ≡ some pos
    pub head_stays :
        (pos : Vec3 W) (s : S)
        → scene.site (head_site spec) (scene.place_body (part_site spec) pos s).0
          ≡ scene.site (head_site spec) s
    pub end_stays :
        (pos : Vec3 W) (s : S)
        → scene.site (end_site spec) (scene.place_body (part_site spec) pos s).0
          ≡ scene.site (end_site spec) s

  -- After a delivery that succeeded, a line of which the place of delivery is not past the end leaves
  -- the part where it is.
  pub deliver_at-recirculate :
      (line : IsLine) (head end : Vec3 W) (s s' : S)
      → scene.site (head_site spec) s ≡ some head
      → scene.site (end_site spec) s ≡ some end
      → past_the_end head end (delivery numbers spec head) ≡ false
      → deliver_at numbers scene spec (some head) s ≡ (s', success)
      → recirculate numbers scene spec s' ≡ (s', success)
  unfolding recirculate recirculate_from deliver_at
  deliver_at-recirculate line head end s s' h e short done =
      let stays : scene.site (head_site spec) s' ≡ some head =
        ap (λ x. scene.site (head_site spec) x.0) (sym done) ∙ line.head_stays _ s ∙ h in
      let ends : scene.site (end_site spec) s' ≡ some end =
        ap (λ x. scene.site (end_site spec) x.0) (sym done) ∙ line.end_stays _ s ∙ e in
      rw (line.placed (delivery numbers spec head) s s' done, stays, ends, short) refl
