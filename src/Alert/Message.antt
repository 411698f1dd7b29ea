-- ===== src/Alert/Message.antt =====
-- services/alert_service.py, `_send_alert`: the text of an alert. `str.format`, which raises on a
-- template that names what it is not given, is a parameter; the numbers of a result are the texts
-- that it makes of them.
use devops_cd.Prelude.{String, Option, none, some, List, [], ◌∷◌, str_eq, if◌then◌else◌, ◌≡◌, refl}
use devops_cd.Text.{is_empty}
use devops_cd.Text.Dict.{get}
use devops_cd.Lease.{starts}
use devops_cd.State.{Server}
use devops_cd.Alert.Rule.{Rule, Metric}

abbrev or_text : Option String → String → String
or_text none s = s
or_text (some t) s = t

abbrev pub resource_names : String → List (String × String)
resource_names lang =
    if str_eq lang "zh"
    then ("cpu", "CPU")
      ∷ ("memory", "内存")
      ∷ ("disk", "硬盘")
      ∷ ("pod_cpu", "Pod CPU")
      ∷ ("pod_memory", "Pod 内存")
      ∷ ("docker_cpu", "容器 CPU")
      ∷ ("docker_memory", "容器 内存")
      ∷ ("process_cpu", "进程 CPU")
      ∷ ("process_memory", "进程 内存")
      ∷ []
    else ("cpu", "CPU")
      ∷ ("memory", "Memory")
      ∷ ("disk", "Disk")
      ∷ ("pod_cpu", "Pod CPU")
      ∷ ("pod_memory", "Pod Memory")
      ∷ ("docker_cpu", "Container CPU")
      ∷ ("docker_memory", "Container Memory")
      ∷ ("process_cpu", "Process CPU")
      ∷ ("process_memory", "Process Memory")
      ∷ []

abbrev pub type_names : String → List (String × String)
type_names lang =
    if str_eq lang "zh"
    then ("pod", "Pod") ∷ ("docker", "容器") ∷ ("process", "进程") ∷ []
    else ("pod", "Pod") ∷ ("docker", "Container") ∷ ("process", "Process") ∷ []

abbrev system_template : String → String
system_template lang =
    if str_eq lang "zh"
    then "⚠\u{fe0f} [资源告警] {time}\n服务器：{server}({host})\n资源：{resource_name} ({value}%)\n阈值：{threshold}%"
    else if str_eq lang "en"
    then "⚠\u{fe0f} [Resource Alert] {time}\nServer: {server}({host})\nResource: {resource_name} ({value}%)\nThreshold: {threshold}%"
    else ""

abbrev app_template : String → String
app_template lang =
    if str_eq lang "zh"
    then "⚠\u{fe0f} [应用告警] {time}\n服务器：{server}({host})\n类型：{type_name}\n名称：{name}\n资源：{resource_name} ({value}%)\n阈值：{threshold}%"
    else if str_eq lang "en"
    then "⚠\u{fe0f} [App Alert] {time}\nServer: {server}({host})\nType: {type_name}\nName: {name}\nResource: {resource_name} ({value}%)\nThreshold: {threshold}%"
    else ""

unfoldable pub default_template : String → String → String
default_template target_type lang =
    if str_eq target_type "app" then app_template lang else system_template lang

unfoldable pub resource_name : String → Metric → String
resource_name lang m =
    if starts "custom_" m.resource
    then m.name
    else or_text (get m.resource (resource_names lang)) m.resource

unfoldable pub fields : String → String → Rule → Server → Metric → List (String × String)
unfolding resource_name
fields now lang rule server m =
    ("time", now)
    ∷ ("server", server.name)
    ∷ ("host", server.host)
    ∷ ("resource_name", resource_name lang m)
    ∷ ("value", m.value)
    ∷ ("threshold", rule.threshold)
    ∷ ("name", m.name)
    ∷ ("type_name", or_text (get m.sub_type (type_names lang)) m.sub_type)
    ∷ ("resource", resource_name lang m)
    ∷ ("unit", m.unit)
    ∷ ("raw", m.raw)
    ∷ ("entity", m.entity_label)
    ∷ ("metric", m.metric_name)
    ∷ []

abbrev pub template_for : String → String → String → String
template_for template target_type lang =
    if is_empty template then default_template target_type lang else template

resource_name_test :
    resource_name "en" (record {
      resource = "disk";
      value = "91";
      name = "";
      unit = "%";
      raw = "";
      entity_label = "";
      metric_name = "";
      sub_type = "";
    })
    ≡ "Disk"
unfolding resource_name
resource_name_test = refl
