-- ===== src/Print/Attributes/Names.antt =====
-- The names of the attributes (src/print_results/printer.c) read back.
use command_stats.Common.{◌≡◌, ◌≢◌, refl, some}
use command_stats.Common.Text.{Text}
use command_stats.Print.Attributes.{
  Attribute, invalid_attribute, pid, exit_code, execution_failed, start_time, end_time, total_time,
  user_cpu_time, system_cpu_time, maximum_resident_segment_size, parse_attribute,
  get_attribute_name,
}

-- Every attribute but the invalid one has a name, and that name is read as this attribute, so no
-- two attributes have the same name.
parse_attribute-get_attribute_name :
    (attribute : Attribute)
    → attribute ≢ invalid_attribute
    → (name : Text) × (get_attribute_name attribute ≡ some name)
      × (parse_attribute name ≡ attribute)
unfolding parse_attribute get_attribute_name
parse_attribute-get_attribute_name invalid_attribute h = absurd (h refl)
parse_attribute-get_attribute_name pid h = (_, refl, refl)
parse_attribute-get_attribute_name exit_code h = (_, refl, refl)
parse_attribute-get_attribute_name execution_failed h = (_, refl, refl)
parse_attribute-get_attribute_name start_time h = (_, refl, refl)
parse_attribute-get_attribute_name end_time h = (_, refl, refl)
parse_attribute-get_attribute_name total_time h = (_, refl, refl)
parse_attribute-get_attribute_name user_cpu_time h = (_, refl, refl)
parse_attribute-get_attribute_name system_cpu_time h = (_, refl, refl)
parse_attribute-get_attribute_name maximum_resident_segment_size h = (_, refl, refl)
