-- ===== src/Tests/Units.antt =====
-- A systemd unit with an argument that has to be quoted.
use home_pc_agent.Common.{◌↔◌}
use home_pc_agent.Common.{[], ◌∷◌, ◌≡◌, refl, codes, every, ok}
use home_pc_agent.Systemd.{SystemdUnit, escape_systemd_value, escape_chars, render}
use home_pc_agent.Systemd.Rendering.{IsField, IsRenderable, rendered, render_iff}

abbrev agent_unit : SystemdUnit
agent_unit = record {
  description = codes "Home PC agent";
  exec_start = codes "/usr/bin/agent" ∷ codes "--config" ∷ codes "/home/me/50% \"x\".yaml" ∷ [];
}

quoted_example : escape_systemd_value (codes "50% $x") ≡ codes "\"50%% $$x\""
unfolding escape_systemd_value escape_chars every
quoted_example = refl

agent_unit-IsRenderable : IsRenderable agent_unit
unfolding every
agent_unit-IsRenderable = ((refl, refl), refl, ((refl, refl), ((refl, refl), ((refl, refl), tt))))

agent_unit_renders : render agent_unit ≡ ok (rendered agent_unit)
agent_unit_renders = (render_iff agent_unit (rendered agent_unit)).1 (agent_unit-IsRenderable, refl)

plain-IsField : IsField (codes "50% $x")
unfolding every
plain-IsField = (refl, refl)

render_iff_example :
    (render agent_unit ≡ ok (rendered agent_unit))
    ↔ (IsRenderable agent_unit × (rendered agent_unit ≡ rendered agent_unit))
render_iff_example = render_iff agent_unit (rendered agent_unit)
